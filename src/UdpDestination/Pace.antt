-- ===== src/UdpDestination/Pace.antt =====
-- The pauses of the loop of include/dg_cat/udp_datagram_destination.hpp for `max_datagram_rate`: times
-- are nanoseconds of the steady clock, and `send_interval` is the one that the code computes.
use dg_cat.Common.{
  ℕ, zero, suc, ◌+◌, ◌*◌, ◌≤◌, ◌≡◌, refl, List, [], ◌∷◌, Option, none, some, ltb, leb, length,
  if◌then◌else◌, if_cases, arith, Bool, false, true, inl, inr, ◌||◌, ap, Bool-cases,
}

-- The loop before `sendmsg` over what the clock says: the time of the datagram, if it comes to that.
unfoldable pub wait_until : ℕ → List ℕ → Option ℕ
wait_until next_send_time [] = none
wait_until next_send_time (now ∷ later) =
    if ltb now next_send_time then wait_until next_send_time later else some now

abbrev pub after_wait : List ℕ → Option ℕ → List ℕ
after_wait later none = []
after_wait later (some now) = now ∷ later

-- The times at which datagrams are sent, where the clock's readings are given for every round; a
-- round whose readings are used up is still waiting.
unfoldable pub send_times : ℕ → ℕ → List (List ℕ) → List ℕ
send_times send_interval next_send_time [] = []
send_times send_interval next_send_time (readings ∷ rounds) =
    let later = send_times send_interval (next_send_time + send_interval) rounds in
    after_wait later (wait_until next_send_time readings)

-- how many of some times are not behind a time
abbrev pub sent_by : ℕ → List ℕ → ℕ
sent_by time [] = 0
sent_by time (t ∷ ts) = if leb t time then suc (sent_by time ts) else sent_by time ts

-- None, or the interval between any two of them fits between two times.
abbrev pub IsRated : ℕ → ℕ → ℕ → ℕ → Type 0
IsRated send_interval start time zero = Unit
IsRated send_interval start time (suc k) = start + k * send_interval ≤ time

wait_until-due :
    (next_send_time now : ℕ) (readings : List ℕ)
    → wait_until next_send_time readings ≡ some now
    → next_send_time ≤ now
unfolding wait_until
wait_until-due next now [] h = absurd (cc h)
wait_until-due next now (r ∷ readings) h = ground (arith, h, wait_until-due next now readings)

-- a datagram more, and the rest an interval later
IsRated-more :
    (i start time t k : ℕ)
    → start ≤ t
    → IsRated i (start + i) time k
    → IsRated i start time (if leb t time then suc k else k)
IsRated-more i start time t zero due h =
    if_cases (IsRated i start time) (leb t time) _ _ (λ b. ground arith) (λ b. tt)
IsRated-more i start time t (suc k) due h =
    if_cases (IsRated i start time) (leb t time) _ _ (λ b. omega arith) (λ b. omega arith)

-- The clock comes to a time.
abbrev pub comes_to : ℕ → List ℕ → Bool
comes_to time [] = false
comes_to time (now ∷ later) = leb time now || comes_to time later

-- In every round the clock comes to the time at which its datagram is due.
abbrev pub IsDue : ℕ → ℕ → List (List ℕ) → Type 0
IsDue send_interval start [] = Unit
IsDue send_interval start (readings ∷ rounds) =
    (comes_to start readings ≡ true) × IsDue send_interval (start + send_interval) rounds

wait_until-comes_to :
    (next_send_time : ℕ) (readings : List ℕ)
    → comes_to next_send_time readings ≡ true
    → (now : ℕ) × (wait_until next_send_time readings ≡ some now)
unfolding wait_until
wait_until-comes_to next [] h = absurd (cc h)
wait_until-comes_to next (r ∷ readings) h = elim (Bool-cases (ltb r next)) [
  | inr late ↦ (r, rw late refl)
  | inl early ↦
      let before : leb next r ≡ false = ground (arith, early) in
      let (now, at_) = wait_until-comes_to next readings (ground (arith, h, before)) in
      (now, rw early at_)
]

-- With a pause between datagrams, where in every round the clock comes to the time at which its
-- datagram is due, every round sends its datagram, and up to any time no more are sent than there are
-- intervals from the start of the loop to that time, and one, however late the rounds are.
pub send_times-rate :
    (send_interval start time : ℕ) (rounds : List (List ℕ))
    → IsDue send_interval start rounds
    → (length (send_times send_interval start rounds) ≡ length rounds)
      × IsRated send_interval start time (sent_by time (send_times send_interval start rounds))
unfolding send_times
send_times-rate i start time [] due = (refl, tt)
send_times-rate i start time (readings ∷ rounds) due =
    let (now, at_) = wait_until-comes_to start readings due.0 in
    let (all, rated) = send_times-rate i (start + i) time rounds due.1 in
    rw at_ (
      ap suc all,
      IsRated-more i start time now (sent_by time (send_times i (start + i) rounds))
          (wait_until-due start now readings at_) rated,
    )
