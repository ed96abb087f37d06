-- ===== src/Paths.antt =====
-- What a path names: `DatagramSource::create` and `DatagramDestination::create` of src/, the names of
-- files in include/dg_cat/file_datagram_source.hpp and file_datagram_destination.hpp, and the
-- addresses in udp_datagram_source.hpp and udp_datagram_destination.hpp. A string is a list of
-- character codes; the port is the string that `std::stoi` is given.
pub mod Named
use dg_cat.Common.{
  ℕ, suc, ◌+◌, Bool, true, false, ◌||◌, List, [], ◌∷◌, Option, none, some, take, drop, length, ◌==◌,
  if◌then◌else◌,
}
use dg_cat.RandomSource.Args.{same_string}

-- "udp://", "random://", "file://", "-", "stdin", "stdout", and "0.0.0.0"
abbrev pub udp_scheme : List ℕ
udp_scheme = 117 ∷ 100 ∷ 112 ∷ 58 ∷ 47 ∷ 47 ∷ []

abbrev pub random_scheme : List ℕ
random_scheme = 114 ∷ 97 ∷ 110 ∷ 100 ∷ 111 ∷ 109 ∷ 58 ∷ 47 ∷ 47 ∷ []

abbrev pub file_scheme : List ℕ
file_scheme = 102 ∷ 105 ∷ 108 ∷ 101 ∷ 58 ∷ 47 ∷ 47 ∷ []

abbrev pub dash : List ℕ
dash = 45 ∷ []

abbrev pub stdin_name : List ℕ
stdin_name = 115 ∷ 116 ∷ 100 ∷ 105 ∷ 110 ∷ []

abbrev pub stdout_name : List ℕ
stdout_name = 115 ∷ 116 ∷ 100 ∷ 111 ∷ 117 ∷ 116 ∷ []

abbrev pub any_address : List ℕ
any_address = 48 ∷ 46 ∷ 48 ∷ 46 ∷ 48 ∷ 46 ∷ 48 ∷ []

abbrev pub char_colon : ℕ
char_colon = 58

-- `path.compare(0, n, scheme) == 0`, where `n` is the length of the scheme
abbrev pub has_scheme : List ℕ → List ℕ → Bool
has_scheme scheme path = same_string (take (length scheme) path) scheme

-- `erase` of the scheme
abbrev pub strip_scheme : List ℕ → List ℕ → List ℕ
strip_scheme scheme path = if has_scheme scheme path then drop (length scheme) path else path

pub data Endpoint : Type 0 where
  udp random file : Endpoint

unfoldable pub create_source : List ℕ → Endpoint
create_source path =
    if has_scheme udp_scheme path
    then Endpoint.udp
    else if has_scheme random_scheme path
    then Endpoint.random
    else Endpoint.file

unfoldable pub create_destination : List ℕ → Endpoint
create_destination path = if has_scheme udp_scheme path then Endpoint.udp else Endpoint.file

-- What is opened: the standard stream, or a file of this name.
pub data Opened : Type 0 where
  standard : Opened
  named : List ℕ → Opened

unfoldable pub source_file : List ℕ → Opened
source_file path =
    if same_string path dash || same_string path stdin_name
    then standard
    else named (strip_scheme file_scheme path)

unfoldable pub destination_file : List ℕ → Opened
destination_file path =
    if same_string path dash || same_string path stdout_name
    then standard
    else named (strip_scheme file_scheme path)

-- `rfind` of a character
abbrev pub rfind_char : ℕ → List ℕ → Option ℕ
rfind_char c [] = none
rfind_char c (x ∷ xs) = elim (rfind_char c xs) [
  | some i ↦ some (suc i)
  | none ↦ if x == c then some 0 else none
]

-- The address and the port that the UDP source binds to.
unfoldable pub source_address : List ℕ → List ℕ × List ℕ
source_address path =
    let addr_and_port = strip_scheme udp_scheme path in
    elim (rfind_char char_colon addr_and_port) [
      | none ↦ (any_address, addr_and_port)
      | some p ↦ (take p addr_and_port, drop (p + 1) addr_and_port)
    ]

-- Those that the UDP destination connects to; `none` is an exception.
unfoldable pub destination_address : List ℕ → Option (List ℕ × List ℕ)
destination_address path =
    let host_and_port = strip_scheme udp_scheme path in
    elim (rfind_char char_colon host_and_port) [
      | none ↦ none
      | some p ↦ some (take p host_and_port, drop (p + 1) host_and_port)
    ]
