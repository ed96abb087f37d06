-- ===== src/RandomSource/Args.antt =====
-- The arguments behind `random://`: the constructor of `RandomDatagramSource` in
-- include/dg_cat/random_datagram_source.hpp. A string is a list of character codes; `std::stoul` is
-- a parameter, with `none` for its exceptions.
pub mod Printed
pub mod Values
use dg_cat.Common.{
  ℕ, zero, suc, ◌+◌, ◌%◌, ◌^◌, Bool, true, false, ◌&&◌, List, [], ◌∷◌, ◌++◌, Option, none, some,
  take, drop, length, ◌==◌, if◌then◌else◌,
}

-- `find` of a character
abbrev pub find_char : ℕ → List ℕ → Option ℕ
find_char c [] = none
find_char c (x ∷ xs) = if x == c then some 0 else later (find_char c xs)
  where
    later : Option ℕ → Option ℕ
    later none = none
    later (some i) = some (suc i)

abbrev pub same_string : List ℕ → List ℕ → Bool
same_string [] [] = true
same_string (x ∷ xs) (y ∷ ys) = x == y && same_string xs ys
same_string _ _ = false

-- the characters '=' and '&', and the four keys
abbrev pub char_eq : ℕ
char_eq = 61

abbrev pub char_amp : ℕ
char_amp = 38

abbrev pub key_n : List ℕ
key_n = 110 ∷ []

abbrev pub key_min_size : List ℕ
key_min_size = 109 ∷ 105 ∷ 110 ∷ 95 ∷ 115 ∷ 105 ∷ 122 ∷ 101 ∷ []

abbrev pub key_max_size : List ℕ
key_max_size = 109 ∷ 97 ∷ 120 ∷ 95 ∷ 115 ∷ 105 ∷ 122 ∷ 101 ∷ []

abbrev pub key_seed : List ℕ
key_seed = 115 ∷ 101 ∷ 101 ∷ 100 ∷ []

pub record RandomArgs : Type 0 where
  pub n_to_generate : ℕ
  pub min_size : ℕ
  pub max_size : ℕ
  pub seed : ℕ

abbrev pub default_args : RandomArgs
default_args = record { n_to_generate = 0; min_size = 0; max_size = 1472; seed = 0 }

-- `key_val`, and what is left of `argstr`
abbrev pub take_arg : List ℕ → List ℕ × List ℕ
take_arg argstr = at_ampersand (find_char char_amp argstr)
  where
    at_ampersand : Option ℕ → List ℕ × List ℕ
    at_ampersand none = (argstr, [])
    at_ampersand (some p) = (take p argstr, drop (p + 1) argstr)

module _ (stoul : List ℕ → Option ℕ) where
  abbrev pub with_number : (ℕ → RandomArgs) → Option ℕ → Option RandomArgs
  with_number f none = none
  with_number f (some k) = some (f k)

  -- `none` is an exception
  unfoldable pub assign : RandomArgs → List ℕ → List ℕ → Option RandomArgs
  assign a key val_s =
      if same_string key key_n
      then with_number (λ k. record a { n_to_generate = k }) (stoul val_s)
      else if same_string key key_min_size
      then with_number (λ k. record a { min_size = k }) (stoul val_s)
      else if same_string key key_max_size
      then with_number (λ k. record a { max_size = k }) (stoul val_s)
      else if same_string key key_seed
      then with_number (λ k. record a { seed = k % 2 ^ 32 }) (stoul val_s)
      else none

  abbrev pub set_arg : RandomArgs → List ℕ → Option RandomArgs
  set_arg a key_val = at_eq (find_char char_eq key_val)
    where
      at_eq : Option ℕ → Option RandomArgs
      at_eq none = none
      at_eq (some p) = assign a (take p key_val) (drop (p + 1) key_val)

  -- The loop over `argstr`. Every round takes a character off it, so that fuel for its length, and
  -- one more, is enough.
  unfoldable pub parse_args : ℕ → RandomArgs → List ℕ → Option RandomArgs
  parse_args fuel a [] = some a
  parse_args zero a (c ∷ argstr) = none
  parse_args (suc fuel) a (c ∷ argstr) = elim (set_arg a (take_arg (c ∷ argstr)).0) [
    | none ↦ none
    | some a' ↦ parse_args fuel a' (take_arg (c ∷ argstr)).1
  ]
