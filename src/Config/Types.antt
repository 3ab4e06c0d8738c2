-- ===== src/Config/Types.antt =====
-- stack-overflow/capstone/src/cfgcore/cfgcore.h and common/cprof.h: entries, status codes, limits.
use bug_museum.Base.{ℕ, Option}
use bug_museum.Memory.Bytes.{Bytes}

-- A name is its block without the closing NUL that the code adds; `value` is `none` for NULL. The
-- list of a profile is the list of its entries, and `ival` is the bit pattern of the 64-bit integer.
pub record Entry : Type 0 where
  pub name : Bytes
  pub kind : ℕ
  pub value_len : ℕ
  pub value : Option Bytes
  pub ival : ℕ

-- The codes CFG_EBADMAGIC to CFG_EIO.
pub data Status : Type 0 where
  bad_magic version trunc limit nomem io : Status

pub data Outcome {ℓ} (A : Type ℓ) : Type ℓ where
  refused : Status → Outcome A
  parsed : A → Outcome A

abbrev pub cfg_int : ℕ
cfg_int = 3

abbrev pub cprof_version : ℕ
cprof_version = 1

abbrev pub cprof_max_entries : ℕ
cprof_max_entries = 4096

abbrev pub cprof_max_name : ℕ
cprof_max_name = 1024

abbrev pub cprof_max_value : ℕ
cprof_max_value = 0x10_0000
