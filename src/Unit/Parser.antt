-- ===== src/Unit/Parser.antt =====
-- crates/rinit-core/src/unit/parser.rs: the errors of the parser of unit files, its sections and its
-- state. A line's number counts from 1.
use rinit.Prelude.{
  ℕ, zero, suc, ◌+◌, ◌-◌, ◌*◌, ◌/◌, ◌%◌, ◌^◌, ◌≤◌, ◌<◌, min, max, ◌≡◌, refl, sym, ap, ◌∙◌, ◌≢◌, ◌↔◌,
  ◌⊎◌, inl, inr, Bool, true, false, not, ◌&&◌, ◌||◌, Option, none, some, List, [], ◌∷◌, ◌++◌, map,
  Memᴰ, arith, ltb, leb, ◌==◌, ==_iff, if◌then◌else◌, ltb→lt, lt→ltb, leb→le, Bool-cases,
  Option-cases, length, get_elem?, take, drop, length-append, length-drop, take-append, drop-append,
  List-cases, All, All-append, All-drop, Text, codes, text_eq, text_eq_iff, Result, ok, err, ◌>>=◌,
  ◌>>◌, Result-cases,
}
use rinit.Unit.Name.{UnitName, UnitType}
use rinit.Unit.Config.{UnitConfig, new_config}
pub mod Lexing
pub mod Values
pub mod Directives
pub mod Running
pub mod EnvironmentFile
pub mod Comments
pub mod Quoting
pub mod ServiceFile
pub mod RoundTrip
pub mod Sane
pub mod Contract
mod Samples

-- The messages of the syntax errors; two carry the text that they show.
pub data Message : Type 0 where
  expected_entry : Text → Message
  missing_bracket : Message
  content_after_header : Text → Message

-- Why a value was refused: in these words, or as no name of a unit.
pub data Reason : Type 0 where
  said : Text → Reason
  bad_name : Text → Reason

pub data ParseError : Type 0 where
  syntax : ℕ → Message → ParseError
  unknown_section : ℕ → Text → ParseError
  unknown_key : ℕ → Text → Text → ParseError
  duplicate_key : ℕ → Text → ParseError
  entry_outside_section : ℕ → Text → ParseError
  invalid_value : ℕ → Text → Text → Reason → ParseError
  unterminated_quote : ℕ → ParseError
  missing_exec_start : Text → ParseError
  type_suffix_conflict : Text → Text → Text → ParseError

pub data Section : Type 0 where
  unit_section service_section : Section

unfoldable pub section_text : Section → Text
section_text unit_section = codes "Unit"
section_text service_section = codes "Service"

pub data Zero : Type 0 where
  allowed rejected : Zero

pub record Parser : Type 0 where
  pub name : UnitName
  pub cfg : UnitConfig
  pub declared_unit_type : Option UnitType
  pub current_section : Option Section
  pub seen : List (Text × Text)
  pub service_type_line : Option ℕ
  pub restart_line : Option ℕ

unfoldable pub new_parser : UnitName → Parser
unfolding new_config
new_parser name = record {
  name = name;
  cfg = new_config name;
  declared_unit_type = none;
  current_section = none;
  seen = [];
  service_type_line = none;
  restart_line = none;
}
