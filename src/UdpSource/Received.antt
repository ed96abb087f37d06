-- ===== src/UdpSource/Received.antt =====
-- The counts and the time limits of udp_datagram_source.hpp.
use dg_cat.Common.{
  concat, ℕ, suc, ◌+◌, ◌<◌, ◌≡◌, ◌≢◌, refl, sym, ap, ap₂, subst, ◌∙◌, true, false, List, [], ◌∷◌,
  ◌++◌, arith, length, replicate, size_mod, max, none, some, inl, inr, ◌⊎◌, ◌==◌, if◌then◌else◌,
  length-append,
}
use native.Mathlib.Decide.{dec_le}
use dg_cat.Timespec.{Timespec}
use dg_cat.Queue.Commit.{Mmsghdr}
use dg_cat.UdpSource.{
  first_dg, next_dg, Receive, received, timed_out, bad_handle, interrupted, failed, Receiver, Stop,
  receiving, at_timeout, at_force, thrown, Run, set_limit, after_receive, on_receive, receive,
  new_receiver,
}

-- All datagrams of a schedule.
abbrev pub offered : List Receive → List Mmsghdr
offered [] = []
offered (received ms now clock ∷ evs) = ms ++ offered evs
offered (timed_out ∷ evs) = offered evs
offered (bad_handle f ∷ evs) = offered evs
offered (interrupted ∷ evs) = offered evs
offered (failed ∷ evs) = offered evs

abbrev pub largest : List (List Mmsghdr) → ℕ
largest [] = 0
largest (ms ∷ rest) = max (length ms) (largest rest)

module _ (first_limit next_limit : Timespec) where
  -- `current_timeout` and the socket agree, and are the first limit only before the first datagram.
  pub record Agrees (r : Receiver) : Type 0 where
    pub current :
        (r.current_timeout ≡ none)
        ⊎ (((r.current_timeout ≡ some first_dg) × (r.rcvtimeo ≡ first_limit))
            ⊎ ((r.current_timeout ≡ some next_dg) × (r.rcvtimeo ≡ next_limit)))

  abbrev due_limit : ℕ → Timespec
  due_limit n = if n == 0 then first_limit else next_limit

  set_limit_lem :
      (r : Receiver)
      → Agrees r
      → Agrees (set_limit first_limit next_limit r)
        × ((set_limit first_limit next_limit r).rcvtimeo ≡ due_limit r.n_datagrams)
        × ((set_limit first_limit next_limit r).n_datagrams ≡ r.n_datagrams)
        × ((set_limit first_limit next_limit r).stats ≡ r.stats)
  unfolding set_limit
  set_limit_lem r a = ground arith

  -- The counts and the limits of a run that starts at `r`.
  record Runs (r : Receiver) (run : Run) : Type 0 where
    counted : run.last.n_datagrams ≡ r.n_datagrams + length (concat run.batches)
    clump : run.last.stats.max_clump_size ≡ max r.stats.max_clump_size (largest run.batches)
    n_first : ℕ
    n_next : ℕ
    limits : run.limits ≡ replicate n_first first_limit ++ replicate n_next next_limit
    at_first : (n_first ≡ 0) ⊎ (r.n_datagrams ≡ 0)
    at_next : (n_next ≡ 0) ⊎ (0 < run.last.n_datagrams)

  abbrev with_limit : Timespec → Run → Run
  with_limit t run = record run { limits = t ∷ run.limits }

  -- one more call in front of a run
  longer :
      (r r' : Receiver) (run : Run)
      → r'.n_datagrams ≡ r.n_datagrams
      → r'.stats ≡ r.stats
      → Runs r' run
      → Runs r (with_limit (due_limit r.n_datagrams) run)
  longer r r' run same same_stats h = elim (dec_le 1 r.n_datagrams) [
    | yes some_ ↦ record {
      counted = h.counted ∙ ap (λ n. n + length (concat run.batches)) same;
      clump = h.clump ∙ ap (λ s. max s.max_clump_size (largest run.batches)) same_stats;
      n_first = 0;
      n_next = suc h.n_next;
      limits =
          let nothing : h.n_first ≡ 0 = omega (arith, h.at_first) in
          let next : due_limit r.n_datagrams ≡ next_limit = ground arith in
          ap₂ ◌∷◌ next
            (h.limits ∙ ap (λ k. replicate k first_limit ++ replicate h.n_next next_limit) nothing);
      at_first = inl refl;
      at_next = inr (omega (arith, h.counted));
    }
    | no none_ ↦ record {
      counted = h.counted ∙ ap (λ n. n + length (concat run.batches)) same;
      clump = h.clump ∙ ap (λ s. max s.max_clump_size (largest run.batches)) same_stats;
      n_first = suc h.n_first;
      n_next = h.n_next;
      limits =
          let first : due_limit r.n_datagrams ≡ first_limit = ground arith in
          ap₂ ◌∷◌ first h.limits;
      at_first = inr (omega arith);
      at_next = h.at_next;
    }
  ]

  ended :
      (r : Receiver) (s : Stop) → Runs r (record { batches = []; limits = []; stop = s; last = r })
  ended r s = record {
    counted = omega arith;
    clump = omega arith;
    n_first = 0;
    n_next = 0;
    limits = refl;
    at_first = inl refl;
    at_next = inl refl;
  }

  on_receive-Runs :
      (ev : Receive) (later : Receiver → Run) (r : Receiver) (n_later : List Receive)
      → Agrees r
      → r.n_datagrams + length (offered (ev ∷ n_later)) < size_mod
      → ((r' : Receiver)
          → Agrees r'
          → r'.n_datagrams + length (offered n_later) < size_mod
          → Runs r' (later r'))
      → Runs r (on_receive first_limit next_limit later r ev)
  unfolding on_receive after_receive
  on_receive-Runs (received [] now clock) later r evs a small ih = ended r at_timeout
  on_receive-Runs (received (m ∷ ms) now clock) later r evs a small ih =
      let r' = after_receive first_limit next_limit r (m ∷ ms) now clock in
      let sum = length-append (m ∷ ms) (offered evs) in
      let more : r'.n_datagrams ≡ r.n_datagrams + length (m ∷ ms) = omega arith in
      let h = ih r' (record { current = a.current }) (omega arith) in
      record {
        counted = omega (arith, h.counted, length-append (m ∷ ms) (concat (later r').batches));
        clump = omega (arith, h.clump);
        n_first = h.n_first;
        n_next = h.n_next;
        limits = h.limits;
        at_first = inl (omega (arith, h.at_first));
        at_next = h.at_next;
      }
  on_receive-Runs timed_out later r evs a small ih = ended r at_timeout
  on_receive-Runs (bad_handle true) later r evs a small ih = ended r at_force
  on_receive-Runs (bad_handle false) later r evs a small ih = ended r thrown
  on_receive-Runs interrupted later r evs a small ih = ih r a small
  on_receive-Runs failed later r evs a small ih = ended r thrown

  receive-Runs :
      (evs : List Receive) (r : Receiver)
      → Agrees r
      → r.n_datagrams + length (offered evs) < size_mod
      → Runs r (receive first_limit next_limit evs r)
  unfolding receive
  receive-Runs [] r a small = ended r receiving
  receive-Runs (ev ∷ evs) r a small =
      let (agrees, limit, same, same_stats) = set_limit_lem r a in
      let r' = set_limit first_limit next_limit r in
      let run = on_receive first_limit next_limit (receive first_limit next_limit evs) r' ev in
      subst (λ t. Runs r (with_limit t run)) (sym limit)
        (longer r r' run same same_stats (
          on_receive-Runs ev (receive first_limit next_limit evs) r' evs agrees (omega arith)
            (λ r'' b k. receive-Runs evs r'' b k)))

  -- With fewer than 2^64 datagrams, the source's count at the end of a run is that of the datagrams
  -- committed, and `max_clump_size` is the size of the largest batch.
  pub receive-counts :
      (evs : List Receive)
      → length (offered evs) < size_mod
      → let run = receive first_limit next_limit evs new_receiver in
        (run.last.n_datagrams ≡ length (concat run.batches))
        × (run.last.stats.max_clump_size ≡ largest run.batches)
  receive-counts evs small =
      let h = receive-Runs evs new_receiver (record { current = inl refl }) (omega arith) in
      (omega (arith, h.counted), omega (arith, h.clump))

  -- With fewer than 2^64 datagrams, the calls of `recvmmsg` are made with the start limit at first
  -- and with the other limit from then on, and with the other limit only if there was a datagram.
  pub receive-limits :
      (evs : List Receive)
      → length (offered evs) < size_mod
      → let run = receive first_limit next_limit evs new_receiver in
        (n_first : ℕ) × (n_next : ℕ) × (run.limits
          ≡ replicate n_first first_limit ++ replicate n_next next_limit)
        × ((n_next ≡ 0) ⊎ (run.batches ≢ []))
  receive-limits evs small =
      let h = receive-Runs evs new_receiver (record { current = inl refl }) (omega arith) in
      (
        h.n_first,
        h.n_next,
        h.limits,
        elim h.at_next [
          | inl none_ ↦ inl none_
          | inr some_ ↦ inr (λ none_. omega (arith, h.counted, ap (λ b. length (concat b)) none_))
        ],
      )
