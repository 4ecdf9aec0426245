-- ===== src/Portal/Requests.antt =====
-- Requests and answers. A body is the JSON object that a client sent, by the fields that the handler
-- looks up; `malformed` is a body that `json.loads` refuses.
use pronze.Prelude.{ℕ, String, Bool, Option, List, ◌==◌, string_eq, none, some, false}
use pronze.World.{Content, Event, World}

pub record Fields : Type 0 where
  pub password : Option String
  pub kill_tars : Option Bool
  pub display : Option String
  pub pull_rate : Option ℕ
  pub input : Option String

pub data Body : Type 0 where
  malformed : Body
  object : Fields → Body

pub record Request : Type 0 where
  pub path : String
  -- `urllib.parse` of the path: its part before "?", and the query's password
  pub url_path : String
  pub query_password : Option String
  -- X-Portal-Password
  pub password_header : Option String
  pub body : Body

pub data Answer : Type 0 where
  -- a status code with a JSON or a plain text
  reply : ℕ → String → Answer
  error_page : ℕ → Answer
  html : Answer
  -- /events: what is written at once
  stream : List Event → Answer
  download : Content → Answer
  -- /api/download, given up while the file was read
  broken_off : Answer

-- `header == PORTAL_PASSWORD`
unfoldable pub is_password : World → Option String → Bool
is_password w none = false
is_password w (some p) = p == w.portal_password
