-- ===== src/ControlPlane/Mailbox/Delivery.antt =====
-- What a mailbox promises: each message once, in order, and no message lost between two reads.
use native.Mathlib.Decide.{dec_lt}
use synth_agent_runtime.Prelude.{
  Bool, List, Option-cases, String, [], any, arith, beq_refl, drop, drop-nil, drop-drop, eq_iff,
  false, find, if_elim, if◌then◌else◌, inl, inr, insert, keep, last, length, list_eq, lookup,
  lookup-insert, ltb, nat_eq, none, option_eq, refl, some, string_eq, suc, sym, take,
  take-drop-take, take_add, true, ℕ, ◌++◌, ◌+◌, ◌-◌, ◌<◌, ◌==◌, ◌||◌, ◌∷◌, ◌≡◌, ◌≢◌, ◌≤◌,
}
use synth_agent_runtime.Prelude.Int.{pos, pos_part, ℤ}
use synth_agent_runtime.ControlPlane.Mailbox.{
  AgentMessage, MailboxCursor, MailboxEnvelope, MailboxStore, ack_mailbox, ack_of, append_mailbox,
  append_new, box, cursor_key, empty_store, get_mailbox_cursor, has_id, last_seq, read_mailbox,
}

-- The sequence numbers count up by one from `n`.
abbrev pub IsNumbered : ℕ → List MailboxEnvelope → Type 0
IsNumbered n [] = Unit
IsNumbered n (e ∷ es) = (e.seq ≡ n) × IsNumbered (suc n) es

-- No two messages have the same id.
abbrev pub HasUniqueIds : List MailboxEnvelope → Type 0
HasUniqueIds [] = Unit
HasUniqueIds (e ∷ es) = (any (has_id e.message.id) es ≡ false) × HasUniqueIds es

pub record IsBox (items : List MailboxEnvelope) : Type 0 where
  pub numbered : IsNumbered 1 items
  pub unique : HasUniqueIds items

pub record IsWellFormed (s : MailboxStore) : Type 0 where
  pub boxes : (a : String) → IsBox (box s a)

IsNumbered-concat :
    (n : ℕ) (items : List MailboxEnvelope) (e : MailboxEnvelope)
    → IsNumbered n items
    → e.seq ≡ n + length items
    → IsNumbered n (items ++ e ∷ [])
IsNumbered-concat n [] e v h = (omega arith, tt)
IsNumbered-concat n (x ∷ items) e v h = (v.0, IsNumbered-concat (suc n) items e v.1 (omega arith))

last_seq-length :
    (n : ℕ) (items : List MailboxEnvelope)
    → IsNumbered (suc n) items
    → items ≢ []
    → last_seq items ≡ n + length items
unfolding last
last_seq-length n [] v h = absurd (h refl)
last_seq-length n (x ∷ []) v h = omega arith
last_seq-length n (x ∷ y ∷ items) v h =
    omega (arith, last_seq-length (suc n) (y ∷ items) v.1 (λ e. cc))

pub last_seq_box :
    (items : List MailboxEnvelope) → IsNumbered 1 items → last_seq items ≡ length items
unfolding last
last_seq_box [] v = refl
last_seq_box (x ∷ items) v = omega (arith, last_seq-length 0 (x ∷ items) v (λ e. cc))

any-concat {ℓ} :
    {A : Type ℓ} (p : A → Bool) (xs : List A) (x : A) → any p (xs ++ x ∷ []) ≡ (any p xs || p x)
unfolding any
any-concat p [] x = ground arith
any-concat p (y ∷ xs) x = ground (arith, any-concat p xs x)

find-none-any {ℓ} : {A : Type ℓ} (p : A → Bool) (xs : List A) → find p xs ≡ none → any p xs ≡ false
unfolding find any
find-none-any p [] h = refl
find-none-any p (x ∷ xs) h = ground (arith, find-none-any p xs)

HasUniqueIds-concat :
    (items : List MailboxEnvelope) (e : MailboxEnvelope)
    → HasUniqueIds items
    → find (has_id e.message.id) items ≡ none
    → HasUniqueIds (items ++ e ∷ [])
unfolding find any
HasUniqueIds-concat [] e v h = (refl, tt)
HasUniqueIds-concat (x ∷ items) e v h = (
  ground (
    arith,
    any-concat (has_id x.message.id) items e,
    eq_iff x.message.id e.message.id,
    eq_iff e.message.id x.message.id,
  ),
  HasUniqueIds-concat items e v.1 (ground arith),
)

append_new-IsBox :
    (items : List MailboxEnvelope) (e : MailboxEnvelope)
    → IsBox items
    → e.seq ≡ last_seq items + 1
    → find (has_id e.message.id) items ≡ none
    → IsBox (items ++ e ∷ [])
append_new-IsBox items e v h fresh = record {
  numbered = IsNumbered-concat 1 items e v.numbered (omega (arith, last_seq_box items v.numbered));
  unique = HasUniqueIds-concat items e v.unique fresh;
}

box-insert :
    (s : MailboxStore) (a b : String) (items : List MailboxEnvelope)
    → box (record s { messages = insert a items s.messages }) b
      ≡ (if a == b then items else box s b)
box-insert s a b items = ground (arith, lookup-insert a b items s.messages, eq_iff a b)

append-IsWellFormed :
    (s : MailboxStore) (a : String) (m : AgentMessage) (now : ℕ)
    → IsWellFormed s
    → IsWellFormed (append_mailbox s a m now).1
unfolding append_mailbox append_new
append-IsWellFormed s a m now v = elim (Option-cases (find (has_id m.id) (box s a))) [
  | inl fresh ↦
      rw (fresh, append_mailbox)
        (record { boxes = λ b. rw (box-insert s a b (box s a ++ new ∷ [])) (branch b fresh) })
  | inr (e, old) ↦ rw (old, append_mailbox) v
]
  where
    new : MailboxEnvelope
    new = (append_new s a m now (box s a)).0.envelope

    branch :
        (b : String)
        → find (has_id m.id) (box s a) ≡ none
        → IsBox (if a == b then box s a ++ new ∷ [] else box s b)
    branch b fresh =
        if_elim IsBox (a == b) (box s a ++ new ∷ []) (box s b)
          (λ _. append_new-IsBox (box s a) new (v.boxes a) refl fresh) (λ _. v.boxes b)

-- The calls that change a mailbox store.
pub data Call : Type 0 where
  appends : String → AgentMessage → ℕ → Call
  acks : String → String → ℕ → ℕ → Call

abbrev pub step : MailboxStore → Call → MailboxStore
step s (appends a m now) = (append_mailbox s a m now).1
step s (acks a c through now) = (ack_mailbox s a c through now).1

abbrev pub run : MailboxStore → List Call → MailboxStore
run s [] = s
run s (c ∷ cs) = run (step s c) cs

step-IsWellFormed : (s : MailboxStore) (c : Call) → IsWellFormed s → IsWellFormed (step s c)
unfolding ack_mailbox
step-IsWellFormed s (appends a m now) v = append-IsWellFormed s a m now v
step-IsWellFormed s (acks a c through now) v = record { boxes = λ b. v.boxes b }

run-IsWellFormed : (s : MailboxStore) (cs : List Call) → IsWellFormed s → IsWellFormed (run s cs)
run-IsWellFormed s [] v = v
run-IsWellFormed s (c ∷ cs) v = run-IsWellFormed (step s c) cs (step-IsWellFormed s c v)

-- After any appends and acknowledgements on a new store, each agent's messages are numbered
-- 1, 2, 3, … without a gap, and no two of them have the same id.
pub run-IsWellFormed_from_empty : (cs : List Call) → IsWellFormed (run empty_store cs)
unfolding lookup
run-IsWellFormed_from_empty cs =
    run-IsWellFormed empty_store cs (record { boxes = λ a. record { numbered = tt; unique = tt } })

find-concat {ℓ} :
    {A : Type ℓ} (p : A → Bool) (xs : List A) (x : A)
    → find p xs ≡ none
    → p x ≡ true
    → find p (xs ++ x ∷ []) ≡ some x
unfolding find
find-concat p [] x h t = ground arith
find-concat p (y ∷ xs) x h t = ground (arith, find-concat p xs x)

append_fresh :
    (s : MailboxStore) (a : String) (m : AgentMessage) (now : ℕ)
    → find (has_id m.id) (box s a) ≡ none
    → append_mailbox s a m now ≡ append_new s a m now (box s a)
unfolding append_mailbox
append_fresh s a m now h = rw (h, append_mailbox)

append_old :
    (s : MailboxStore) (a : String) (m : AgentMessage) (now : ℕ) (x : MailboxEnvelope)
    → find (has_id m.id) (box s a) ≡ some x
    → append_mailbox s a m now ≡ (record { envelope = x; inserted = false }, s)
unfolding append_mailbox
append_old s a m now x h = rw (h, append_mailbox)

-- A message that is sent again, with the same id but perhaps other contents and at another time,
-- is answered with the envelope that the first sending has, and the store stays as it was.
pub append_again :
    (s : MailboxStore) (a : String) (m m' : AgentMessage) (now now' : ℕ)
    → m'.id ≡ m.id
    → let first = append_mailbox s a m now in
      append_mailbox first.1 a m' now'
      ≡ (record { envelope = first.0.envelope; inserted = false }, first.1)
unfolding append_new
append_again s a m m' now now' e = elim (Option-cases (find (has_id m.id) (box s a))) [
  | inl fresh ↦ rw (append_fresh s a m now fresh) (
      append_old (append_new s a m now (box s a)).1 a m' now' new (
        rw (box-insert s a a (box s a ++ new ∷ []), beq_refl a)
          (find-concat (has_id m'.id) (box s a) new (rw e fresh) (rw e (beq_refl m.id)))))
  | inr (x, old) ↦ rw (append_old s a m now x old) (append_old s a m' now' x (rw e old))
]
  where
    new : MailboxEnvelope
    new = (append_new s a m now (box s a)).0.envelope

keep_all :
    (n a : ℕ) (items : List MailboxEnvelope)
    → a < n
    → IsNumbered n items
    → keep (λ (e : MailboxEnvelope). ltb a e.seq) items ≡ items
unfolding keep
keep_all n a [] h v = refl
keep_all n a (x ∷ items) h v = ground (arith, keep_all (suc n) a items)

keep-drop :
    (k a : ℕ) (items : List MailboxEnvelope)
    → k ≤ a
    → IsNumbered (suc k) items
    → keep (λ (e : MailboxEnvelope). ltb a e.seq) items ≡ drop (a - k) items
unfolding keep
keep-drop k a [] h v = sym (drop-nil (a - k))
keep-drop k a (x ∷ items) h v = elim (dec_lt k a) [
  | yes more ↦
      let e : a - k ≡ suc (a - suc k) = omega arith in
      rw e (ground (arith, keep-drop (suc k) a items))
  | no here ↦
      let e : a - k ≡ 0 = omega arith in rw e (ground (arith, keep_all (suc (suc k)) a items))
]

pub read_mailbox_lem :
    (s : MailboxStore) (a : String) (after_seq : ℕ) (limit : ℤ)
    → IsWellFormed s
    → read_mailbox s a after_seq limit ≡ take (pos_part limit) (drop after_seq (box s a))
unfolding read_mailbox
read_mailbox_lem s a after_seq limit v =
    let e : after_seq - 0 ≡ after_seq = omega arith in
    rw (keep-drop 0 after_seq (box s a) (omega arith) (v.boxes a).numbered, e)

-- Reading page by page loses and repeats nothing: a page of at most `n` messages after sequence
-- number `a`, followed by a page of at most `k` after the last message of the first one, is the
-- page of at most `n + k` messages after `a`. The store is one that calls can reach.
pub read_pages :
    (s : MailboxStore) (agent_id : String) (a n k : ℕ)
    → IsWellFormed s
    → let first = read_mailbox s agent_id a (pos n) in
      first ++ read_mailbox s agent_id (a + length first) (pos k)
      ≡ read_mailbox s agent_id a (pos (n + k))
read_pages s agent_id a n k v =
    let rest = drop a (box s agent_id) in
    rw
      (
        read_mailbox_lem s agent_id a (pos n) v,
        read_mailbox_lem s agent_id (a + length (take n rest)) (pos k) v,
        read_mailbox_lem s agent_id a (pos (n + k)) v,
        ← drop-drop a (length (take n rest)) (box s agent_id),
        take-drop-take n k rest,
      )
      (take_add n k rest)

step-ack-le :
    (s : MailboxStore) (c : Call) (a i : String)
    → ack_of (get_mailbox_cursor s a i) ≤ ack_of (get_mailbox_cursor (step s c) a i)
unfolding append_mailbox append_new ack_mailbox get_mailbox_cursor
step-ack-le s (appends b m now) a i = ground arith
step-ack-le s (acks b j through now) a i = ground (
  arith,
  lookup-insert (cursor_key b j) (cursor_key a i) new s.cursors,
  eq_iff (cursor_key b j) (cursor_key a i),
)
  where
    new : MailboxCursor
    new = (ack_mailbox s b j through now).0

-- The acknowledged position of a consumer never moves back, whatever calls follow.
pub ack_never_back :
    (s : MailboxStore) (cs : List Call) (agent_id consumer : String)
    → ack_of (get_mailbox_cursor s agent_id consumer)
      ≤ ack_of (get_mailbox_cursor (run s cs) agent_id consumer)
ack_never_back s [] a i = omega arith
ack_never_back s (c ∷ cs) a i = omega (arith, step-ack-le s c a i, ack_never_back (step s c) cs a i)

-- In a store that calls can reach, a consumer that acknowledges a position at or after its last
-- one and within the mailbox reads next, at any limit, the messages right behind that position.
pub read-ack :
    (s : MailboxStore) (agent_id consumer : String) (through now : ℕ) (limit : ℤ)
    → IsWellFormed s
    → ack_of (get_mailbox_cursor s agent_id consumer) ≤ through
    → through ≤ length (box s agent_id)
    → let (cursor, s') = ack_mailbox s agent_id consumer through now in
      read_mailbox s' agent_id cursor.ack_seq limit
      ≡ take (pos_part limit) (drop through (box s agent_id))
unfolding ack_mailbox get_mailbox_cursor
read-ack s agent_id consumer through now limit v old fits =
    let (cursor, s') = ack_mailbox s agent_id consumer through now in
    let v' : IsWellFormed s' = record { boxes = v.boxes } in
    let e : cursor.ack_seq ≡ through =
      omega (arith, last_seq_box (box s agent_id) (v.boxes agent_id).numbered) in
    rw (read_mailbox_lem s' agent_id cursor.ack_seq limit v', e)
