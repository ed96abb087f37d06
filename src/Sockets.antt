-- ===== src/Sockets.antt =====
-- How the UDP endpoints get their socket: the loop of the constructor in
-- include/dg_cat/udp_datagram_source.hpp over `bind`, and that of
-- include/dg_cat/udp_datagram_destination.hpp over `connect`.
pub mod First
use dg_cat.Common.{
  ℕ, Bool, true, false, List, [], ◌∷◌, ◌++◌, Option, none, some, suc, length, if◌then◌else◌, ◌==◌,
}
use dg_cat.AddrInfo.{Flow, continues, breaks, Visited, ended, thrown, exhausted, begin, for_each}

-- The descriptor, with `none` for -1, the entry that matched, and what was given to `::close`.
pub record Opening : Type 0 where
  pub sock : Option ℕ
  pub matching_entry : Option ℕ
  pub closed : List ℕ

abbrev pub no_socket : Opening
no_socket = record { sock = none; matching_entry = none; closed = [] }

-- What a constructor comes to: a member `_sock`, with the entry that matched and the descriptors
-- that were closed before, or an exception, with the descriptors that were closed.
pub data Opened : Type 0 where
  member : ℕ → Option ℕ → List ℕ → Opened
  raised : List ℕ → Opened

-- What `socket` and `bind` or `connect` say for an entry.
module _ (socket : ℕ → Option ℕ) (attach : ℕ → ℕ → Bool) where
  abbrev pub try_bind : ℕ → Opening → Option ℕ → Flow Opening
  try_bind entry o none = continues (record o { sock = none })
  try_bind entry o (some s) =
      if attach entry s
      then breaks (record o { sock = some s; matching_entry = some entry })
      else continues (record o { sock = some s; closed = o.closed ++ (s ∷ []) })

  -- the body of the source's loop: `s` stays as it is behind `::close(s)`
  abbrev pub bind_body : ℕ → Opening → Flow Opening
  bind_body entry o = try_bind entry o (socket entry)

  abbrev pub try_connect : ℕ → Opening → Option ℕ → Flow Opening
  try_connect entry o none = continues (record o { sock = none })
  try_connect entry o (some s) =
      if attach entry s
      then breaks (record o { sock = some s; matching_entry = some entry })
      else continues (record o { sock = none; closed = o.closed ++ (s ∷ []) })

  -- the body of the destination's loop
  abbrev pub connect_body : ℕ → Opening → Flow Opening
  connect_body entry o = try_connect entry o (socket entry)

  -- the test behind the loop
  abbrev pub check_socket : Opening → Option ℕ → Opened
  check_socket o none = raised o.closed
  check_socket o (some s) = member s o.matching_entry o.closed

  abbrev pub check_visited : Visited Opening → Opened
  check_visited (ended o) = check_socket o o.sock
  check_visited thrown = raised []
  check_visited exhausted = raised []

  -- The loops, with the size of the list for fuel and an exception where it is empty.
  unfoldable pub open_source : (list : ℕ) → List ℕ → Opened
  open_source list addrinfo_list =
      if length addrinfo_list == 0
      then raised []
      else check_visited (
          for_each list addrinfo_list bind_body (suc (length addrinfo_list)) (begin list) no_socket)

  unfoldable pub open_destination : (list : ℕ) → List ℕ → Opened
  open_destination list addrinfo_list =
      if length addrinfo_list == 0
      then raised []
      else check_visited (
          for_each list addrinfo_list connect_body (suc (length addrinfo_list)) (begin list)
            no_socket)
