-- ===== src/Config/Validation.antt =====
-- src/config.cpp, what validate_config_verbose accepts.
use llm_cpp.Prelude.{
  ◌%◌, ◌<◌, ◌≡◌, refl, ◌↔◌, Bool, true, false, ◌&&◌, some, arith, ◌==◌, nat_eq, list_eq, int_eq,
}
use llm_cpp.Config.{Config, is_rope, validate_config, validate_config_verbose}

pub record IsValid {F R : Type 0} (below_one : F → Bool) (cfg : Config F R) : Type 0 where
  pub some_head : 0 < cfg.n_heads
  pub heads : cfg.n_embd % cfg.n_heads ≡ 0
  pub some_token : 0 < cfg.vocab_size
  pub some_layer : 0 < cfg.n_layers
  pub one_encoding : (cfg.use_alibi && is_rope cfg.pos_encoding) ≡ false
  pub scaling : below_one cfg.rope_scaling ≡ false
  pub some_global : 0 < cfg.global_every

module _ {F R : Type 0} (below_one : F → Bool) (cfg : Config F R) where
  IsValid-accepted : IsValid below_one cfg → validate_config below_one cfg ≡ some true
  unfolding validate_config validate_config_verbose
  IsValid-accepted v =
      let a : (cfg.n_heads == 0) ≡ false = ground (arith, v.some_head) in
      let b : (cfg.n_embd % cfg.n_heads == 0) ≡ true = ground (arith, v.heads) in
      let c : (cfg.vocab_size == 0) ≡ false = ground (arith, v.some_token) in
      let d : (cfg.n_layers == 0) ≡ false = ground (arith, v.some_layer) in
      let e : (cfg.global_every == 0) ≡ false = ground (arith, v.some_global) in
      rw (a, b, c, d, v.one_encoding, v.scaling, e) refl

  accepted-IsValid : validate_config below_one cfg ≡ some true → IsValid below_one cfg
  unfolding validate_config validate_config_verbose
  accepted-IsValid h = record {
    some_head = ground (arith, h);
    heads = ground (arith, h);
    some_token = ground (arith, h);
    some_layer = ground (arith, h);
    one_encoding = ground (arith, h);
    scaling = ground (arith, h);
    some_global = ground (arith, h);
  }

  -- validate_config accepts exactly the valid configurations.
  pub validate_config-IsValid : (validate_config below_one cfg ≡ some true) ↔ IsValid below_one cfg
  validate_config-IsValid = (accepted-IsValid, IsValid-accepted)
