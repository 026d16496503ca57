-- ===== src/Config/Tests.antt =====
-- A small configuration, saved and loaded.
use llm_cpp.Prelude.{ℕ, ◌≡◌, refl, false, none, some, arith, nat_eq, list_eq, int_eq}
use llm_cpp.Config.{Config, PosEncoding, load_config, save_config}
use llm_cpp.Config.Files.{loaded, load_config-save_config}

-- The scaling of the positions is a number of tenths.
abbrev small : Config ℕ ℕ
small = record {
  vocab_size = 256;
  n_layers = 2;
  n_heads = 4;
  n_embd = 32;
  block_size = 64;
  pos_encoding = PosEncoding.rope;
  rope_scaling = 10;
  use_alibi = false;
  global_every = 1;
  others = 0;
}

-- A vocabulary that is no int
abbrev huge : Config ℕ ℕ
huge = record small { vocab_size = 4294967296 }

load_config-save_config_example : load_config small (some (save_config huge)) ≡ loaded huge small
load_config-save_config_example = load_config-save_config huge small (record {
  vocab_size = omega arith;
  n_layers = omega arith;
  n_heads = omega arith;
  n_embd = omega arith;
  block_size = omega arith;
})

huge_throws : loaded huge small ≡ none
huge_throws = refl
