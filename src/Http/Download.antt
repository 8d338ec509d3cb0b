-- ===== src/Http/Download.antt =====
-- frontend/src/app/services/request.ts: `download`, which asks for a file and saves it.
use k8s_platform.Common.{
  String, Bool, true, false, Option, none, some, List, [], ◌∷◌, ◌++◌, nat_eq, if◌then◌else◌,
}
use k8s_platform.Text.{or_text, includes}
use k8s_platform.Storage.{WebStorage}
use k8s_platform.Http.{Page, AxiosError, is_canceled, handle_unauthorized}

-- The message in the body of a refused download: the body is no JSON, or it has a message or none.
pub data Text : Type 0 where
  no_json : Text
  json : (message : Option String) → Text

-- What the request answers with: a file or a text of a content type, an error of axios with its body
-- as a blob if it has one, or another error.
pub data Answer : Type 0 where
  response : (content_type : String) → Text → Answer
  axios_error : AxiosError → (blob : Option Text) → Answer
  other_error : Answer

pub record Ended (P : Type 0) : Type 0 where
  pub page : P
  pub saved : List String
  pub threw : Bool

abbrev pub message_of : Text → String
message_of no_json = "下载失败"
message_of (json m) = or_text m "下载失败"

abbrev pub is_unauthorized : AxiosError → Bool
is_unauthorized e = elim e.response [ none ↦ false | some r ↦ nat_eq r.status 401 ]

module _ (w : WebStorage) {Entry : Type 0} where
  abbrev pub tell : Page w Entry → String → Page w Entry
  tell page s = record page { notices = page.notices ++ s ∷ [] }

  abbrev failed : Page w Entry → Ended (Page w Entry)
  failed page = record { page = page; saved = []; threw = true }

  -- A body that is no JSON falls through to the general message.
  abbrev refused_body : Page w Entry → Option Text → Ended (Page w Entry)
  refused_body page none = failed (tell page "下载失败")
  refused_body page (some no_json) = failed (tell page "下载失败")
  refused_body page (some (json m)) = failed (tell page (message_of (json m)))

  -- A JSON answer is an error that is told twice: where it is read, and where it is caught.
  unfoldable pub download :
      (String → String) → Page w Entry → (filename : String) → Answer → Ended (Page w Entry)
  download encode page filename (response content_type body) =
      if includes content_type "application/json"
      then failed (tell (tell page (message_of body)) "下载失败")
      else record { page = page; saved = filename ∷ []; threw = false }
  download encode page filename (axios_error e blob) =
      if is_canceled e
      then failed page
      else if is_unauthorized e
      then failed (handle_unauthorized w encode page)
      else refused_body page blob
  download encode page filename other_error = failed (tell page "下载失败")
