-- ===== src/Config.antt =====
-- The linear flow of src/config.rs, as it stands behind the parser.
use kuromaku.Prelude.{ℕ, String, Bool, true, false, not, Option, none, some, List, Assoc, is_empty}
use kuromaku.Runner.Graph.Model.{Backend, BackendArgs}

pub data PostCommentTarget : Type 0 where
  pr issue : PostCommentTarget

pub record Step : Type 0 where
  pub id : String
  pub agent : String
  pub role : Option String
  pub task : Option String
  pub run : Option String
  pub input : List String
  pub needs : List String
  pub model : Option String
  pub backend : Option Backend
  pub print_output : Bool
  pub post_comment : Option PostCommentTarget
  pub agents : List String
  pub max_turns : Option ℕ
  pub turn_timeout : Option ℕ
  pub extra_args : BackendArgs

-- `Option::is_some`.
abbrev is_some : Option String → Bool
is_some none = false
is_some (some s) = true

unfoldable pub is_shell : Step → Bool
is_shell s = is_some s.run

unfoldable pub is_conversation : Step → Bool
is_conversation s = not (is_empty s.agents)

pub record StackConfig : Type 0 where
  pub backend : String
  pub path : String

pub record Defaults : Type 0 where
  pub model : String
  pub backend : Backend

pub record FlowConfig : Type 0 where
  pub version : String
  pub name : String
  pub prompt : Option String
  pub defaults : Defaults
  pub roles : Assoc String
  pub steps : List Step
  pub stack : StackConfig
