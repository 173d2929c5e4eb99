-- ===== src/Macros.antt =====
-- src/sqlxmq_macros/src/lib.rs: the attribute `#[job]`. Of syn's syntax trees there is what the macro
-- tells apart; it works on them in Args, and writes the job's item in Expand.
pub mod Args
pub mod Accept
pub mod Order
pub mod Kept
pub mod Expand
pub mod Static
pub mod Builder
pub mod Run
pub mod Tokens
mod Examples
use sqlxmq.Prelude.{String, Bool, List}

-- A path that is one identifier, or another one.
pub data MetaPath : Type 0 where
  ident : String → MetaPath
  qualified : List String → MetaPath

-- A literal; a number is the text of its digits.
pub data Lit : Type 0 where
  str : String → Lit
  int : String → Lit
  float : String → Lit
  bool : Bool → Lit
  other : Lit

mutual
  pub data NestedMeta : Type 0 where
    lit : Lit → NestedMeta
    meta : Meta → NestedMeta

  pub data Meta : Type 0 where
    path : MetaPath → Meta
    list : MetaPath → Nested → Meta
    name_value : MetaPath → Lit → Meta

  -- The arguments between the parentheses of a list.
  pub data Nested : Type 0 where
    nested_nil : Nested
    nested_cons : NestedMeta → Nested → Nested
