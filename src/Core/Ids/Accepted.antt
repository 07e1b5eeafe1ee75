-- ===== src/Core/Ids/Accepted.antt =====
-- Which texts `FileHash::new` accepts.
use lnxdrive.Prelude.{
  ℕ, ◌+◌, ◌*◌, ◌/◌, ◌^◌, ◌≤◌, ◌<◌, ◌≡◌, refl, ◌↔◌, Bool, true, ◌==◌, [], ◌∷◌, ◌++◌, reverse, every,
  Text, byte_len, utf8_len, ok, arith,
}
use lnxdrive.Core.Ids.{FileHash, leading, base64_decoded_len, is_base64_char, new_file_hash}
use mathlib.Core.List.{reverse-cons}

byte_len-append : (s t : Text) → byte_len (s ++ t) ≡ byte_len s + byte_len t
byte_len-append [] t = omega arith
byte_len-append (c ∷ s) t = omega (arith, byte_len-append s t)

byte_len-reverse : (s : Text) → byte_len (reverse s) ≡ byte_len s
byte_len-reverse [] = refl
byte_len-reverse (c ∷ s) =
    rw (reverse-cons c s, byte_len-append (reverse s) (c ∷ [])) (omega (arith, byte_len-reverse s))

utf8_len_pos : (c : ℕ) → 1 ≤ utf8_len c
utf8_len_pos c = ground arith

leading-le : (x : ℕ) (s : Text) → leading x s ≤ byte_len s
unfolding leading
leading-le x [] = omega arith
leading-le x (c ∷ s) = ground (arith, leading-le x s, utf8_len_pos c)

-- The padding that `base64_decoded_len` counts.
abbrev pub padding : Text → ℕ
padding hash = leading b'=' (reverse hash)

decoded_len_iff :
    (s : Text)
    → byte_len s < 2 ^ 62
    → ((base64_decoded_len s == 20) ≡ true) ↔ (byte_len s * 3 / 4 ≡ 20 + padding s)
unfolding base64_decoded_len
decoded_len_iff s h =
    let bound : padding s ≤ byte_len s = rw (byte_len-reverse s) at (leading-le b'=' (reverse s)) in
    (λ e. ground arith, λ e. ground arith)

-- A text of feasible length is a hash exactly when its characters are of Base64 and its decoded
-- length, three quarters of its length less the padding at its end, is 20.
pub new_file_hash_iff :
    (is_alphanumeric : ℕ → Bool) (hash : Text) (h : FileHash)
    → byte_len hash < 2 ^ 62
    → (new_file_hash is_alphanumeric hash ≡ ok h) ↔ (
        (every (is_base64_char is_alphanumeric) hash ≡ true)
        × (byte_len hash * 3 / 4 ≡ 20 + padding hash)
        × (h.text ≡ hash))
unfolding new_file_hash
new_file_hash_iff is_alphanumeric [] h b = (λ e. ground arith, λ e. absurd (omega arith))
new_file_hash_iff is_alphanumeric (c ∷ s) h b =
    (λ e. ground (arith, decoded_len_iff (c ∷ s)), λ e. ground (arith, decoded_len_iff (c ∷ s)))
