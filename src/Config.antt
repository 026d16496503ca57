-- ===== src/Config.antt =====
-- src/config.cpp: load_config, save_config, load_hf_config and validate_config_verbose. A file is its
-- bytes, or none if it cannot be opened. The numbers of Config that no function of this file reads
-- or writes are one field, `others`; the test rope_scaling < 1 is given.
pub mod Files
pub mod Validation
mod Tests
use llm_cpp.Prelude.{
  ◌>>=◌, ℕ, ◌+◌, ◌%◌, Bool, true, false, not, ◌&&◌, Option, none, some, List, [], ◌∷◌, ◌++◌, ◌==◌,
  if◌then◌else◌, tests, nat_eq, list_eq, int_eq, codes,
}
use llm_cpp.Text.{find_after, to_string, stoi}

pub data PosEncoding : Type 0 where
  learned : PosEncoding
  sinusoidal : PosEncoding
  rope : PosEncoding

pub record Config (F R : Type 0) : Type 0 where
  pub vocab_size : ℕ
  pub n_layers : ℕ
  pub n_heads : ℕ
  pub n_embd : ℕ
  pub block_size : ℕ
  pub pos_encoding : PosEncoding
  pub rope_scaling : F
  pub use_alibi : Bool
  pub global_every : ℕ
  pub others : R

abbrev pub is_rope : PosEncoding → Bool
is_rope PosEncoding.learned = false
is_rope PosEncoding.sinusoidal = false
is_rope PosEncoding.rope = true

-- The lambda `get` of both loaders, with what stands behind the key: `none` where std::stoi throws
unfoldable pub value : ℕ → Option (List ℕ) → Option ℕ
value def none = some def
value def (some r) = elim (find_after (b':' ∷ []) r) [ none ↦ some def | some v ↦ stoi v ]

unfoldable pub get : List ℕ → List ℕ → ℕ → Option ℕ
get content key def = value def (find_after key content)

module _ {F R : Type 0} where
  -- `defaults` is what Config has before the file is read.
  unfoldable pub load_config : Config F R → Option (List ℕ) → Option (Config F R)
  load_config defaults none = some defaults
  load_config defaults (some content) = do
    vocab_size ← get content (codes "\"vocab_size\"") defaults.vocab_size
    n_layers ← get content (codes "\"n_layers\"") defaults.n_layers
    n_heads ← get content (codes "\"n_heads\"") defaults.n_heads
    n_embd ← get content (codes "\"n_embd\"") defaults.n_embd
    block_size ← get content (codes "\"block_size\"") defaults.block_size
    some (record defaults {
      vocab_size = vocab_size;
      n_layers = n_layers;
      n_heads = n_heads;
      n_embd = n_embd;
      block_size = block_size;
    })

  unfoldable pub save_config : Config F R → List ℕ
  save_config cfg =
      codes "{\n  \"vocab_size\": "
      ++ (to_string cfg.vocab_size
          ++ (codes ",\n  \"n_layers\": "
              ++ (to_string cfg.n_layers
                  ++ (codes ",\n  \"n_heads\": "
                      ++ (to_string cfg.n_heads
                          ++ (codes ",\n  \"n_embd\": "
                              ++ (to_string cfg.n_embd
                                  ++ (codes ",\n  \"block_size\": "
                                      ++ (to_string cfg.block_size ++ codes "\n}\n")))))))))

  -- The number n_head_kv is read and dropped.
  unfoldable pub load_hf_config : Config F R → Option (List ℕ) → Option (Config F R)
  load_hf_config defaults none = some defaults
  load_hf_config defaults (some content) = do
    n_layers ← get content (codes "\"n_layer\"") defaults.n_layers
    n_heads ← get content (codes "\"n_head\"") defaults.n_heads
    kv ← get content (codes "\"n_head_kv\"") n_heads
    n_embd ← get content (codes "\"n_embd\"") defaults.n_embd
    n_positions ← get content (codes "\"n_positions\"") defaults.block_size
    n_ctx ← get content (codes "\"n_ctx\"") n_positions
    n_vocab ← get content (codes "\"n_vocab\"") defaults.vocab_size
    vocab_size ← get content (codes "\"vocab_size\"") n_vocab
    some (record defaults {
      n_layers = n_layers;
      n_heads = n_heads;
      n_embd = n_embd;
      block_size = n_ctx;
      vocab_size = vocab_size;
    })

  -- The answer with the text of the error; `none` for the division by zero if there are no heads
  unfoldable pub validate_config_verbose : (F → Bool) → Config F R → Option (Bool × List ℕ)
  validate_config_verbose below_one cfg =
      if cfg.n_heads == 0
      then none
      else if not (cfg.n_embd % cfg.n_heads == 0)
      then some (
        false,
        codes "n_heads ("
            ++ (to_string cfg.n_heads
                ++ (codes ") must divide n_embd (" ++ (to_string cfg.n_embd ++ codes ")"))),
      )
      else if cfg.vocab_size == 0
      then some (false, codes "vocab_size must be > 0")
      else if cfg.n_layers == 0
      then some (false, codes "n_layers must be > 0")
      else if cfg.use_alibi && is_rope cfg.pos_encoding
      then some
          (false, codes "use_alibi and RoPE are mutually exclusive (pick one position encoding)")
      else if below_one cfg.rope_scaling
      then some (false, codes "rope_scaling must be >= 1.0")
      else if cfg.global_every == 0
      then some (false, codes "global_every must be > 0")
      else some (true, [])

  unfoldable pub validate_config : (F → Bool) → Config F R → Option Bool
  validate_config below_one cfg = do r ← validate_config_verbose below_one cfg; some r.0
