-- ===== src/Sockets/First.antt =====
-- The endpoints take the first address that works, and close the sockets of those before it.
use dg_cat.Common.{
  ℕ, Bool, true, false, List, [], ◌∷◌, ◌++◌, Option, none, some, length, ◌==◌, ◌≡◌, refl, sym, ap,
  ◌∙◌, append_assoc, append-nil, arith, All,
}
use dg_cat.AddrInfo.Visit.{visit, after_flow, for_each_lem}
use dg_cat.Sockets.{
  Opening, no_socket, member, raised, try_bind, bind_body, try_connect, connect_body, open_source,
  open_destination,
}

-- a descriptor, where there is one
abbrev pub listed : Option ℕ → List ℕ
listed none = []
listed (some s) = s ∷ []

abbrev state : Option ℕ → List ℕ → Opening
state sock closed = record { sock = sock; matching_entry = none; closed = closed }

module _ (socket : ℕ → Option ℕ) (attach : ℕ → ℕ → Bool) where
  abbrev pub is_attached : ℕ → Option ℕ → Bool
  is_attached entry none = false
  is_attached entry (some s) = attach entry s

  -- An entry for which there is no socket, or one that is refused.
  abbrev pub IsRefused : ℕ → Type 0
  IsRefused entry = is_attached entry (socket entry) ≡ false

  -- the sockets that are opened for the entries
  abbrev pub sockets : List ℕ → List ℕ
  sockets [] = []
  sockets (entry ∷ entries) = listed (socket entry) ++ sockets entries

  connect-refused :
      (entry : ℕ) (r : Option ℕ) (closed : List ℕ) (later : Opening → Opening)
      → is_attached entry r ≡ false
      → after_flow later (try_connect socket attach entry (state none closed) r)
        ≡ later (state none (closed ++ listed r))
  connect-refused entry none closed later h =
      ap (λ c. later (state none c)) (sym (append-nil closed))
  connect-refused entry (some s) closed later h = rw h refl

  visit-connect_body :
      (before rest closed : List ℕ)
      → All IsRefused before
      → visit (connect_body socket attach) (before ++ rest) (state none closed)
        ≡ visit (connect_body socket attach) rest (state none (closed ++ sockets before))
  visit-connect_body [] rest closed h =
      ap (λ c. visit (connect_body socket attach) rest (state none c)) (sym (append-nil closed))
  visit-connect_body (entry ∷ before) rest closed h =
      connect-refused entry (socket entry) closed
        (visit (connect_body socket attach) (before ++ rest)) h.0
      ∙ visit-connect_body before rest (closed ++ listed (socket entry)) h.1
      ∙ ap (λ c. visit (connect_body socket attach) rest (state none c))
          (append_assoc closed (listed (socket entry)) (sockets before))

  bind-refused :
      (entry : ℕ) (r k : Option ℕ) (closed : List ℕ) (later : Opening → Opening)
      → is_attached entry r ≡ false
      → after_flow later (try_bind socket attach entry (state k closed) r)
        ≡ later (state r (closed ++ listed r))
  bind-refused entry none k closed later h =
      ap (λ c. later (state none c)) (sym (append-nil closed))
  bind-refused entry (some s) k closed later h = rw h refl

  visit-bind_body :
      (before rest closed : List ℕ) (k : Option ℕ)
      → All IsRefused before
      → (k' : Option ℕ) × (visit (bind_body socket attach) (before ++ rest) (state k closed)
          ≡ visit (bind_body socket attach) rest (state k' (closed ++ sockets before)))
  visit-bind_body [] rest closed k h =
      (k, ap (λ c. visit (bind_body socket attach) rest (state k c)) (sym (append-nil closed)))
  visit-bind_body (entry ∷ before) rest closed k h =
      let (k', eq) =
        visit-bind_body before rest (closed ++ listed (socket entry)) (socket entry) h.1 in
      (
        k',
        bind-refused entry (socket entry) k closed
              (visit (bind_body socket attach) (before ++ rest)) h.0
            ∙ eq
            ∙ ap (λ c. visit (bind_body socket attach) rest (state k' c))
                (append_assoc closed (listed (socket entry)) (sockets before)),
      )

  nonempty : (before after : List ℕ) (entry : ℕ) → (length (before ++ (entry ∷ after)) == 0) ≡ false
  nonempty [] after entry = ground arith
  nonempty (x ∷ before) after entry = ground arith

  -- Both endpoints take the first entry whose socket can be bound or connected: that socket becomes
  -- the member `_sock`, and the sockets of all entries before it are closed, and no others.
  pub open-first :
      (list : ℕ) (before after : List ℕ) (entry s : ℕ)
      → All IsRefused before
      → socket entry ≡ some s
      → attach entry s ≡ true
      → (open_source socket attach list (before ++ (entry ∷ after))
          ≡ member s (some entry) (sockets before))
        × (open_destination socket attach list (before ++ (entry ∷ after))
            ≡ member s (some entry) (sockets before))
  unfolding open_source open_destination
  open-first list before after entry s refused opened attached =
      let entries = before ++ (entry ∷ after) in
      let (k, eq) = visit-bind_body before (entry ∷ after) [] none refused in
      (
        rw
            (
              nonempty before after entry,
              for_each_lem list entries (bind_body socket attach) no_socket,
              eq,
              opened,
              attached,
            )
            refl,
        rw
            (
              nonempty before after entry,
              for_each_lem list entries (connect_body socket attach) no_socket,
              visit-connect_body before (entry ∷ after) [] refused,
              opened,
              attached,
            )
            refl,
      )

  -- Where no entry can be connected, the destination throws, and every socket that was opened is
  -- closed.
  pub open_destination-raised :
      (list : ℕ) (entries : List ℕ)
      → All IsRefused entries
      → open_destination socket attach list entries ≡ raised (sockets entries)
  unfolding open_destination
  open_destination-raised list [] refused = ground arith
  open_destination-raised list (entry ∷ entries) refused =
      let all = entry ∷ entries in
      let ran : visit (connect_body socket attach) all no_socket ≡ state none (sockets all) =
        ap (λ xs. visit (connect_body socket attach) xs no_socket) (sym (append-nil all))
        ∙ visit-connect_body all [] [] refused in
      rw
        (
          nonempty [] entries entry,
          for_each_lem list all (connect_body socket attach) no_socket,
          ran,
        )
        refl

  -- Where no entry can be bound and there is a socket for the last one, the source does not throw:
  -- its member `_sock` is that socket, which is closed, and no entry matched.
  pub open_source-closed :
      (list : ℕ) (before : List ℕ) (entry s : ℕ)
      → All IsRefused before
      → socket entry ≡ some s
      → attach entry s ≡ false
      → open_source socket attach list (before ++ (entry ∷ []))
        ≡ member s none (sockets before ++ (s ∷ []))
  unfolding open_source
  open_source-closed list before entry s refused opened not_bound =
      let entries = before ++ (entry ∷ []) in
      let (k, eq) = visit-bind_body before (entry ∷ []) [] none refused in
      rw
        (
          nonempty before [] entry,
          for_each_lem list entries (bind_body socket attach) no_socket,
          eq,
          opened,
          not_bound,
        )
        refl
