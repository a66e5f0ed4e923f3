-- ===== src/Proto.antt =====
-- proto/perftools.profiles.rs: the messages of the pprof format. `i64` and `u64` fields are words, and
-- a default message has zeros, empty lists and `false`.
use pprof_rs.Prelude.{ℕ, Bool, Option, none, List, []}
use pprof_rs.Frames.{Text}

pub record ValueType : Type 0 where
  pub ty : ℕ
  pub unit : ℕ

pub record Label : Type 0 where
  pub key : ℕ
  pub str : ℕ
  pub num : ℕ
  pub num_unit : ℕ

pub record Sample : Type 0 where
  pub location_id : List ℕ
  pub value : List ℕ
  pub label : List Label

pub record Mapping : Type 0 where
  pub id : ℕ
  pub memory_start : ℕ
  pub memory_limit : ℕ
  pub file_offset : ℕ
  pub filename : ℕ
  pub build_id : ℕ
  pub has_functions : Bool
  pub has_filenames : Bool
  pub has_line_numbers : Bool
  pub has_inline_frames : Bool

pub record Line : Type 0 where
  pub function_id : ℕ
  pub line : ℕ

pub record Location : Type 0 where
  pub id : ℕ
  pub mapping_id : ℕ
  pub address : ℕ
  pub line : List Line
  pub is_folded : Bool

pub record Function : Type 0 where
  pub id : ℕ
  pub name : ℕ
  pub system_name : ℕ
  pub filename : ℕ
  pub start_line : ℕ

pub record Profile : Type 0 where
  pub sample_type : List ValueType
  pub sample : List Sample
  pub mapping : List Mapping
  pub location : List Location
  pub function : List Function
  pub string_table : List Text
  pub drop_frames : ℕ
  pub keep_frames : ℕ
  pub time_nanos : ℕ
  pub duration_nanos : ℕ
  pub period_type : Option ValueType
  pub period : ℕ
  pub comment : List ℕ
  pub default_sample_type : ℕ

abbrev pub default_profile : Profile
default_profile = record {
  sample_type = [];
  sample = [];
  mapping = [];
  location = [];
  function = [];
  string_table = [];
  drop_frames = 0;
  keep_frames = 0;
  time_nanos = 0;
  duration_nanos = 0;
  period_type = none;
  period = 0;
  comment = [];
  default_sample_type = 0;
}
