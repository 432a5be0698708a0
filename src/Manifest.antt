-- ===== src/Manifest.antt =====
-- src/manifest.rs: what the manifest says of a corpus. `D` stands for `serde_json::Value`, the content
-- facts of a record, which the code only stores.
use Prim.Native.String.{String}
use mrtgen.Base.{ℕ, List}

pub data CorpusProfile : Type 0 where
  standard stress routes : CorpusProfile

pub data Expect : Type 0 where
  valid skip abort : Expect

pub record RecordEntry (D : Type 0) : Type 0 where
  pub index : ℕ
  pub offset : ℕ
  pub size : ℕ
  pub mrt_type : ℕ
  pub subtype : ℕ
  pub timestamp : ℕ
  pub kind : String
  pub expect : Expect
  pub description : String
  pub tags : List String
  pub details : D

pub record Counts : Type 0 where
  pub valid : ℕ
  pub skip : ℕ
  pub abort : ℕ

pub record Manifest (D : Type 0) : Type 0 where
  pub generator : String
  pub generator_version : String
  pub profile : CorpusProfile
  pub file_size : ℕ
  pub counts : Counts
  pub records : List (RecordEntry D)
