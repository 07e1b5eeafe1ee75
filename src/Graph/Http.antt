-- ===== src/Graph/Http.antt =====
-- What the crate lnxdrive-graph asks of reqwest, serde and the server: requests that change a world, and
-- the decoding of JSON. A request may fail with an `anyhow::Error`, which is its rendering `{:#}`.
use lnxdrive.Prelude.{
  ℕ, leb, ltb, ◌&&◌, if◌then◌else◌, ◌++◌, Option, List, Text, codes, Result, ok, err,
}
use lnxdrive.Core.Time.{DateTime}

pub data Method : Type 0 where
  get put post : Method

pub record Response (Body : Type 0) : Type 0 where
  pub status : ℕ
  pub body : Body

-- The JSON of a drive item, of a page of changes and of an upload session.
pub record DriveItem (Date : Type 0) : Type 0 where
  pub id : Text
  pub name : Text
  pub size : Option ℕ
  pub last_modified_date_time : Option Date
  pub parent_reference : Option (Option Text × Option Text)
  pub file : Option (Option (Option Text))
  pub folder : Option (Unit {0})
  pub deleted : Option (Unit {0})

pub record DeltaPage : Type 0 where
  pub value : List (DriveItem DateTime)
  pub next_link : Option Text
  pub delta_link : Option Text

-- `request` goes to a path below the address of Graph, the others to an absolute address.
pub record Http : Type 1 where
  pub World : Type 0
  pub Body : Type 0
  pub Json : Type 0
  pub request : Method → Text → List ℕ → World → World × Result Text (Response Body)
  pub get_url : Text → World → World × Result Text (Response Body)
  pub put_url : Text → Text → List ℕ → World → World × Result Text (Response Body)
  pub status_error : ℕ → Text
  pub text_of : Body → Text
  pub delta_page : Body → Result Text DeltaPage
  pub drive_item : Body → Result Text (DriveItem Text)
  pub upload_url : Body → Result Text Text
  pub json : Body → Result Text Json
  pub item_of_json : Json → Result Text (DriveItem Text)
  pub parse_date : Text → Option DateTime

module _ (http : Http) where
  abbrev pub M : Type 0 → Type 0
  M A = http.World → http.World × Result Text A

  abbrev pub bind : {A B : Type 0} → M A → (A → M B) → M B
  bind m f w = elim (m w).1 [ ok a ↦ f a (m w).0 | err e ↦ ((m w).0, err e) ]

  abbrev pub pure : {A : Type 0} → A → M A
  pure a w = (w, ok a)

  abbrev pub lift : {A : Type 0} → Result Text A → M A
  lift r w = (w, r)

  abbrev pub with_context : {A : Type 0} → Text → Result Text A → Result Text A
  with_context c (ok a) = ok a
  with_context c (err e) = err (c ++ codes ": " ++ e)

  abbrev pub context : {A : Type 0} → Text → M A → M A
  context c m w = ((m w).0, with_context c (m w).1)

  -- `Response::error_for_status`
  unfoldable pub error_for_status : Response http.Body → Result Text (Response http.Body)
  error_for_status response =
      if leb 400 response.status && ltb response.status 600
      then err (http.status_error response.status)
      else ok response
