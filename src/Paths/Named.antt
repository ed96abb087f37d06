-- ===== src/Paths/Named.antt =====
-- Addresses and file names that are written with their scheme.
use dg_cat.Common.{
  All, ℕ, ◌+◌, ◌≡◌, ◌≢◌, refl, ap, false, List, [], ◌∷◌, ◌++◌, none, some, take, drop, length, ◌==◌,
  arith,
}
use dg_cat.RandomSource.Args.Printed.{before, behind}
use dg_cat.Paths.{
  udp_scheme, file_scheme, any_address, char_colon, Endpoint, create_source, create_destination,
  source_file, destination_file, named, rfind_char, source_address, destination_address,
}

abbrev pub HasNoColon : List ℕ → Type 0
HasNoColon = All (λ c. c ≢ char_colon)

rfind_char-none : (xs : List ℕ) → HasNoColon xs → rfind_char char_colon xs ≡ none
rfind_char-none [] h = refl
rfind_char-none (x ∷ xs) h =
    let other : (x == char_colon) ≡ false = ground (arith, h.0) in
    rw (rfind_char-none xs h.1, other) refl

rfind_char-last :
    (xs ys : List ℕ)
    → HasNoColon ys
    → rfind_char char_colon (xs ++ (char_colon ∷ ys)) ≡ some (length xs)
rfind_char-last [] ys h = rw (rfind_char-none ys h) refl
rfind_char-last (x ∷ xs) ys h = rw (rfind_char-last xs ys h) refl

-- "udp://host:port", where the port has no colon, makes a UDP source and a UDP destination, and both
-- read the host and the port back; the host may have colons. Without a colon the source reads
-- "udp://port" with the address 0.0.0.0, and the destination throws.
pub udp_address_lem :
    (host port : List ℕ)
    → HasNoColon port
    → let path = udp_scheme ++ (host ++ (char_colon ∷ port)) in
      let short = udp_scheme ++ port in
      (create_source path ≡ Endpoint.udp)
      × (create_destination path ≡ Endpoint.udp)
      × (source_address path ≡ (host, port))
      × (destination_address path ≡ some (host, port))
      × (source_address short ≡ (any_address, port))
      × (destination_address short ≡ none)
unfolding create_source create_destination source_address destination_address
udp_address_lem host port h =
    let found = rfind_char-last host port h in
    let split : (
      take (length host) (host ++ (char_colon ∷ port)),
      drop (length host + 1) (host ++ (char_colon ∷ port)),
    )
        ≡ (host, port) =
      λ i. (before host char_colon port i, behind host char_colon port i) in
    (
      refl,
      refl,
      rw (found, source_address) split,
      rw (found, destination_address) (ap some split),
      rw (rfind_char-none port h, source_address) refl,
      rw (rfind_char-none port h, destination_address) refl,
    )

-- "file://name" makes a file source and a file destination of the file with that name.
pub file_name_lem :
    (name : List ℕ)
    → let path = file_scheme ++ name in
      (create_source path ≡ Endpoint.file)
      × (create_destination path ≡ Endpoint.file)
      × (source_file path ≡ named name)
      × (destination_file path ≡ named name)
unfolding create_source create_destination source_file destination_file
file_name_lem name = (refl, refl, refl, refl)
