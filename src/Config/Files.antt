-- ===== src/Config/Files.antt =====
-- src/config.cpp, a configuration that is saved and loaded.
use llm_cpp.Prelude.{
  ◌>>=◌, ℕ, ◌^◌, ◌<◌, ◌≡◌, refl, ap, ◌∙◌, Option, some, List, ◌++◌, arith, nat_eq, list_eq, int_eq,
  codes, ◌>>=◌,
}
use llm_cpp.Text.{strip_prefix, find_after, to_string, stoi, skip_space, is_blank, is_digit}
use llm_cpp.Text.Numbers.{in_int, stoi-to_string, find_after-to_string}
use llm_cpp.Server.Json.{quote}
use llm_cpp.Config.{Config, get, value, load_config, save_config}

module _ {F R : Type 0} (cfg : Config F R) where
  -- What stands behind each number of the file
  abbrev behind_block_size : List ℕ
  behind_block_size = codes "\n}\n"

  abbrev behind_n_embd : List ℕ
  behind_n_embd = codes ",\n  \"block_size\": " ++ (to_string cfg.block_size ++ behind_block_size)

  abbrev behind_n_heads : List ℕ
  behind_n_heads = codes ",\n  \"n_embd\": " ++ (to_string cfg.n_embd ++ behind_n_embd)

  abbrev behind_n_layers : List ℕ
  behind_n_layers = codes ",\n  \"n_heads\": " ++ (to_string cfg.n_heads ++ behind_n_heads)

  abbrev behind_vocab_size : List ℕ
  behind_vocab_size = codes ",\n  \"n_layers\": " ++ (to_string cfg.n_layers ++ behind_n_layers)

  get-vocab_size :
      (d : ℕ)
      → cfg.vocab_size < 10 ^ 20
      → get (save_config cfg) (codes "\"vocab_size\"") d ≡ in_int cfg.vocab_size
  unfolding get value save_config find_after strip_prefix stoi skip_space is_blank is_digit
  get-vocab_size d h = stoi-to_string cfg.vocab_size behind_vocab_size h refl

  get-n_layers :
      (d : ℕ)
      → cfg.n_layers < 10 ^ 20
      → get (save_config cfg) (codes "\"n_layers\"") d ≡ in_int cfg.n_layers
  unfolding get value save_config find_after strip_prefix stoi skip_space is_blank is_digit
  get-n_layers d h =
      ap (value d)
        (find_after-to_string quote cfg.vocab_size (codes "n_layers\"") behind_vocab_size refl)
      ∙ stoi-to_string cfg.n_layers behind_n_layers h refl

  get-n_heads :
      (d : ℕ)
      → cfg.n_heads < 10 ^ 20
      → get (save_config cfg) (codes "\"n_heads\"") d ≡ in_int cfg.n_heads
  unfolding get value save_config find_after strip_prefix stoi skip_space is_blank is_digit
  get-n_heads d h =
      ap (value d) (
        find_after-to_string quote cfg.vocab_size (codes "n_heads\"") behind_vocab_size refl
        ∙ find_after-to_string quote cfg.n_layers (codes "n_heads\"") behind_n_layers refl)
      ∙ stoi-to_string cfg.n_heads behind_n_heads h refl

  get-n_embd :
      (d : ℕ)
      → cfg.n_embd < 10 ^ 20
      → get (save_config cfg) (codes "\"n_embd\"") d ≡ in_int cfg.n_embd
  unfolding get value save_config find_after strip_prefix stoi skip_space is_blank is_digit
  get-n_embd d h =
      ap (value d) (
        find_after-to_string quote cfg.vocab_size (codes "n_embd\"") behind_vocab_size refl
        ∙ find_after-to_string quote cfg.n_layers (codes "n_embd\"") behind_n_layers refl
        ∙ find_after-to_string quote cfg.n_heads (codes "n_embd\"") behind_n_heads refl)
      ∙ stoi-to_string cfg.n_embd behind_n_embd h refl

  get-block_size :
      (d : ℕ)
      → cfg.block_size < 10 ^ 20
      → get (save_config cfg) (codes "\"block_size\"") d ≡ in_int cfg.block_size
  unfolding get value save_config find_after strip_prefix stoi skip_space is_blank is_digit
  get-block_size d h =
      ap (value d) (
        find_after-to_string quote cfg.vocab_size (codes "block_size\"") behind_vocab_size refl
        ∙ find_after-to_string quote cfg.n_layers (codes "block_size\"") behind_n_layers refl
        ∙ find_after-to_string quote cfg.n_heads (codes "block_size\"") behind_n_heads refl
        ∙ find_after-to_string quote cfg.n_embd (codes "block_size\"") behind_n_embd refl)
      ∙ stoi-to_string cfg.block_size behind_block_size h refl

  -- The configuration with the five numbers of the file, if each is an int
  abbrev pub loaded : Config F R → Option (Config F R)
  loaded defaults = do
    vocab_size ← in_int cfg.vocab_size
    n_layers ← in_int cfg.n_layers
    n_heads ← in_int cfg.n_heads
    n_embd ← in_int cfg.n_embd
    block_size ← in_int cfg.block_size
    some (record defaults {
      vocab_size = vocab_size;
      n_layers = n_layers;
      n_heads = n_heads;
      n_embd = n_embd;
      block_size = block_size;
    })

  pub record Fits : Type 0 where
    pub vocab_size : cfg.vocab_size < 2 ^ 64
    pub n_layers : cfg.n_layers < 2 ^ 64
    pub n_heads : cfg.n_heads < 2 ^ 64
    pub n_embd : cfg.n_embd < 2 ^ 64
    pub block_size : cfg.block_size < 2 ^ 64

  -- If its five numbers fit in 64 bits, loading a saved configuration gives the defaults with
  -- exactly these five numbers if each of them is an int, and throws if one of them is not.
  pub load_config-save_config :
      (defaults : Config F R)
      → Fits
      → load_config defaults (some (save_config cfg)) ≡ loaded defaults
  unfolding load_config
  load_config-save_config defaults h =
      rw
        (
          get-vocab_size defaults.vocab_size (omega (arith, h.vocab_size)),
          get-n_layers defaults.n_layers (omega (arith, h.n_layers)),
          get-n_heads defaults.n_heads (omega (arith, h.n_heads)),
          get-n_embd defaults.n_embd (omega (arith, h.n_embd)),
          get-block_size defaults.block_size (omega (arith, h.block_size)),
        )
        refl
