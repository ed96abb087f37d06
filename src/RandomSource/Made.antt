-- ===== src/RandomSource/Made.antt =====
-- The constructor of `RandomDatagramSource` in include/dg_cat/random_datagram_source.hpp, from a path
-- to the source's fields. `std::stoul` and the value of `std::random_device` are parameters; the
-- generator and the distributions are library objects that the fields determine.
use dg_cat.Common.{
  ℕ, ◌+◌, Bool, false, List, [], ◌∷◌, Option, none, some, length, ◌==◌, if◌then◌else◌, replicate,
}
use dg_cat.Paths.{random_scheme, strip_scheme}
use dg_cat.RandomSource.Args.{RandomArgs, default_args, parse_args}

pub record RandomDatagramSource : Type 0 where
  pub n_to_generate : ℕ
  pub min_size : ℕ
  pub max_size : ℕ
  pub seed : ℕ
  pub force_eof : Bool
  pub closed : Bool
  pub buffer : List ℕ

-- "?"
abbrev pub question_mark : List ℕ
question_mark = 63 ∷ []

-- The fields behind the loop over the arguments; a seed of zero is drawn from the device.
abbrev pub seeded : ℕ → ℕ → Option RandomArgs → Option RandomDatagramSource
seeded device bufsize none = none
seeded device bufsize (some a) = some (record {
  n_to_generate = a.n_to_generate;
  min_size = a.min_size;
  max_size = a.max_size;
  seed = if a.seed == 0 then device else a.seed;
  force_eof = false;
  closed = false;
  buffer = replicate bufsize 0;
})

module _ (stoul : List ℕ → Option ℕ) (device bufsize : ℕ) where
  unfoldable pub new_random_source : List ℕ → Option RandomDatagramSource
  new_random_source path =
      let argstr = strip_scheme question_mark (strip_scheme random_scheme path) in
      seeded device bufsize (parse_args stoul (length argstr + 1) default_args argstr)
