-- ===== src/CommandLine/Timeouts.antt =====
-- The rule for the start limit stands in src/main.cpp and in include/dg_cat/config.hpp.
use dg_cat.Common.{◌≡◌, refl, ap, Bool, true, false, if◌then◌else◌, Bool-cases, inl, inr}
use dg_cat.Common.Int.{ℤ}
use dg_cat.Config.{new_config}
use dg_cat.CommandLine.{Options, arguments, configure}

module _ {Double : Type 0} (is_negative : Double → Bool) where
  start_limit :
      (eof start : Double)
      → let given_ = if is_negative start then eof else start in
        (if is_negative given_ then eof else given_) ≡ given_
  start_limit eof start = elim (Bool-cases (is_negative start)) [
    | inr set_ ↦ rw (set_, set_) refl
    | inl unset ↦ rw unset (same (is_negative eof))
  ]
    where
      same : (b : Bool) → (if b then eof else eof) ≡ eof
      same true = refl
      same false = refl

  -- The rule of the program for a negative start limit changes nothing that the constructor of the
  -- configuration does not do by itself: the configuration is the one of the options as given.
  pub configure_lem :
      (sys_conf : ℤ) (o : Options Double)
      → configure is_negative sys_conf o
        ≡ new_config is_negative sys_conf (arguments o o.start_timeout)
  unfolding configure new_config
  configure_lem sys_conf o =
      ap
        (λ start. record (new_config is_negative sys_conf (arguments o o.start_timeout)) {
          start_timeout = start;
        })
        (start_limit o.eof_timeout o.start_timeout)
