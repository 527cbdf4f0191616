-- ===== src/Cluster/Names/Coherence.antt =====
-- An agent that is listed from the start never keeps a name that is gone (bee_clusteragent.lua, bee_clusterd.lua).
use testcluster.Prelude.{
  ℕ, ◌≡◌, ◌⊎◌, inl, inr, refl, Bool, true, false, Option, none, some, List, [], ◌∷◌, ◌++◌, ◌==◌,
  Bool-cases, Option-cases, arith,
}
use testcluster.Pack.Order.{Bytes}
use testcluster.Service.Table.{same_name, same_name-eq}
use testcluster.Cluster.Names.{Names, unregister, queryname, drop_old_name, add_name}
use testcluster.Cluster.Names.Paired.{Command, registers, unregisters, run}
use testcluster.Cluster.Names.Cache.{
  Message, namechange, answer, System, commanded, receive, Step, command, ask, reply, take_message,
  list_agent, Reach, here, next, new_agent,
}

-- Is a change of names on its way?
unfoldable pub has_change : List Message → Bool
has_change [] = false
has_change (namechange ∷ rest) = true
has_change (answer table name addr ∷ rest) = has_change rest

-- An address for a name is right, or a change of names is yet to come.
abbrev pub Known : Names → Bytes → ℕ → List Message → Type 0
Known names name addr coming = (names.by_name name ≡ some addr) ⊎ (has_change coming ≡ true)

abbrev pub AnswersKnown : Names → List Message → Type 0
AnswersKnown names [] = Unit
AnswersKnown names (namechange ∷ rest) = AnswersKnown names rest
AnswersKnown names (answer table name none ∷ rest) = AnswersKnown names rest
AnswersKnown names (answer table name (some addr) ∷ rest) =
    Known names name addr rest × AnswersKnown names rest

pub record IsCoherent (s : System) : Type 0 where
  pub listed : s.listed ≡ true
  pub cached :
      (name : Bytes) (addr : ℕ) → s.cache name ≡ some addr → Known s.names name addr s.inbox
  pub answers : AnswersKnown s.names s.inbox

has_change-append_change : (inbox : List Message) → has_change (inbox ++ namechange ∷ []) ≡ true
unfolding has_change
has_change-append_change [] = refl
has_change-append_change (namechange ∷ rest) = refl
has_change-append_change (answer table name addr ∷ rest) = has_change-append_change rest

has_change-append :
    (inbox more : List Message) → has_change inbox ≡ true → has_change (inbox ++ more) ≡ true
unfolding has_change
has_change-append [] more e = cc (e)
has_change-append (namechange ∷ rest) more e = refl
has_change-append (answer table name addr ∷ rest) more e = has_change-append rest more e

-- Behind every answer there is the change.
AnswersKnown-changed :
    (names : Names) (inbox : List Message) → AnswersKnown names (inbox ++ namechange ∷ [])
AnswersKnown-changed names [] = tt
AnswersKnown-changed names (namechange ∷ rest) = AnswersKnown-changed names rest
AnswersKnown-changed names (answer table name none ∷ rest) = AnswersKnown-changed names rest
AnswersKnown-changed names (answer table name (some addr) ∷ rest) =
    (inr (has_change-append_change rest), AnswersKnown-changed names rest)

-- Names that are added make nothing wrong.
AnswersKnown-grown :
    (names more : Names) (inbox : List Message)
    → ((name : Bytes) (addr : ℕ) → names.by_name name ≡ some addr → more.by_name name ≡ some addr)
    → AnswersKnown names inbox
    → AnswersKnown more inbox
AnswersKnown-grown names more [] grows k = tt
AnswersKnown-grown names more (namechange ∷ rest) grows k =
    AnswersKnown-grown names more rest grows k
AnswersKnown-grown names more (answer table name none ∷ rest) grows k =
    AnswersKnown-grown names more rest grows k
AnswersKnown-grown names more (answer table name (some addr) ∷ rest) grows k = (
  elim (k.0) [ inl e ↦ inl (grows name addr e) | inr e ↦ inr e ],
  AnswersKnown-grown names more rest grows (k.1),
)

one_answer :
    (names : Names) (table : ℕ) (name : Bytes) (addr : Option ℕ)
    → names.by_name name ≡ addr
    → AnswersKnown names (answer table name addr ∷ [])
one_answer names table name none e = tt
one_answer names table name (some addr) e = (inl e, tt)

-- An answer that is right is put behind the others.
AnswersKnown-reply :
    (names : Names) (table : ℕ) (name : Bytes) (inbox : List Message)
    → AnswersKnown names inbox
    → AnswersKnown names (inbox ++ answer table name (names.by_name name) ∷ [])
AnswersKnown-reply names table name [] k = one_answer names table name (names.by_name name) refl
AnswersKnown-reply names table name (namechange ∷ rest) k =
    AnswersKnown-reply names table name rest k
AnswersKnown-reply names table name (answer t n none ∷ rest) k =
    AnswersKnown-reply names table name rest k
AnswersKnown-reply names table name (answer t n (some addr) ∷ rest) k = (
  elim (k.0) [ inl e ↦ inl e | inr e ↦ inr (has_change-append rest _ e) ],
  AnswersKnown-reply names table name rest (k.1),
)

-- A command that does not clear the caches takes no name away.
run_grows :
    (names : Names) (c : Command)
    → (run names c).1 ≡ false
    → (name : Bytes) (addr : ℕ) → names.by_name name ≡ some addr
    → (run names c).0.by_name name ≡ some addr
unfolding run drop_old_name add_name
run_grows names (registers new a) quiet name addr e = elim (Option-cases (names.by_name new)) [
  | inr (taken, t) ↦ rw (t, run) e
  | inl free ↦ elim (Option-cases (names.by_addr a)) [
    | inl fresh ↦ rw (free, run) (rw (fresh, run) (ground (arith, e, free, same_name-eq new name)))
    | inr (old, known) ↦
        let loud : (run names (registers new a)).1 ≡ true = rw (free, run) (rw (known, run) refl) in
        cc (loud, quiet)
  ]
]
run_grows names (unregisters old) quiet name addr e = elim (Option-cases (names.by_name old)) [
  | inr (taken, t) ↦
      let loud : (run names (unregisters old)).1 ≡ true = rw (t, unregister) refl in
      cc (loud, quiet)
  | inl free ↦ rw (free, unregister) e
]

commanded-IsCoherent :
    (s : System) (changed : Names × Bool)
    → (changed.1 ≡ false
        → (name : Bytes) (addr : ℕ) → s.names.by_name name ≡ some addr
        → changed.0.by_name name ≡ some addr)
    → IsCoherent s
    → IsCoherent (commanded s changed)
unfolding commanded
commanded-IsCoherent s (names, true) grows c = rw (c.listed) (record {
  listed = refl;
  cached = λ name addr e. inr (has_change-append_change s.inbox);
  answers = AnswersKnown-changed names s.inbox;
})
commanded-IsCoherent s (names, false) grows c = record {
  listed = c.listed;
  cached = λ name addr e. elim (c.cached name addr e) [
    | inl known ↦ inl (grows refl name addr known)
    | inr change ↦ inr change
  ];
  answers = AnswersKnown-grown s.names names s.inbox (grows refl) c.answers;
}

-- What the agent makes of the first message of the inbox.
receive-IsCoherent :
    (s : System) (message : Message) (rest : List Message)
    → s.inbox ≡ message ∷ rest
    → IsCoherent s
    → IsCoherent (receive (record s { inbox = rest }) message)
unfolding receive has_change
receive-IsCoherent s namechange rest e c = record {
  listed = c.listed;
  cached = λ name addr f. cc (f);
  answers = rw e at (c.answers);
}
receive-IsCoherent s (answer table name none) rest e c = record {
  listed = c.listed;
  cached = λ n x f. rw e at (c.cached n x f);
  answers = rw e at (c.answers);
}
receive-IsCoherent s (answer table name (some addr)) rest e c =
    let known : Known s.names name addr rest × AnswersKnown s.names rest = rw e at (c.answers) in
    let before : (n : Bytes) (x : ℕ) → s.cache n ≡ some x → Known s.names n x rest =
      λ n x f. rw e at (c.cached n x f) in
    elim (Bool-cases (table == s.table)) [
      | inr old ↦ rw (old) (record { listed = c.listed; cached = before; answers = known.1 })
      | inl current ↦ rw (current) (record {
        listed = c.listed;
        cached = λ n x f. elim (Bool-cases (same_name name n)) [
          | inl same ↦
              let there : name ≡ n = same_name-eq name n same in
              let value : some addr ≡ some x = rw same at f in
              elim (known.0) [ inl k ↦ inl (cc (k, there, value)) | inr change ↦ inr change ]
          | inr other ↦ before n x (rw other at f)
        ];
        answers = known.1;
      })
    ]

Step-IsCoherent : {s t : System} → Step s t → IsCoherent s → IsCoherent t
unfolding queryname
Step-IsCoherent {s} (command c) i = commanded-IsCoherent s (run s.names c) (run_grows s.names c) i
Step-IsCoherent {s} (ask name unknown) i = record {
  listed = i.listed;
  cached = i.cached;
  answers = i.answers;
}
Step-IsCoherent {s} (reply table name rest e) i = record {
  listed = i.listed;
  cached = λ n x f. elim (i.cached n x f) [
    | inl k ↦ inl k
    | inr change ↦ inr (has_change-append s.inbox _ change)
  ];
  answers = AnswersKnown-reply s.names table name s.inbox i.answers;
}
Step-IsCoherent {s} (take_message message rest e) i = receive-IsCoherent s message rest e i
Step-IsCoherent {s} list_agent i = record { listed = refl; cached = i.cached; answers = i.answers }

Reach-IsCoherent : {s t : System} → IsCoherent s → Reach s t → IsCoherent t
Reach-IsCoherent i here = i
Reach-IsCoherent i (next r step) = Step-IsCoherent step (Reach-IsCoherent i r)

-- In whatever order names are registered and unregistered, queries asked and answered and messages taken: what an agent that is
-- listed from the start, with nothing remembered, remembers of a name is right, unless a "namechange" is on its way to it; so when no message is, all
-- that it remembers is right.
pub cache_coherent :
    (names : Names) (s : System)
    → Reach (new_agent names true) s
    → (name : Bytes) (addr : ℕ) → s.cache name ≡ some addr
    → (queryname s.names name ≡ some addr) ⊎ (has_change s.inbox ≡ true)
unfolding queryname
cache_coherent names s r name addr e =
    let i : IsCoherent (new_agent names true) = record {
      listed = refl;
      cached = λ n x f. cc (f);
      answers = tt;
    } in
    (Reach-IsCoherent i r).cached name addr e
