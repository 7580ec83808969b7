-- ===== src/Tests/SimulatedEtcd.antt =====
-- A simulated etcd: the log of the writes, the newest first, and what one process holds there.
use mathlib.Core.Path.{subst}
use ha.Base.{
  ==_iff, ◌≢◌, ==_refl, String, ℕ, suc, ◌-◌, ◌≤◌, ◌≡◌, refl, sym, ap, ◌∙◌, Bool, true, false,
  Option, none, some, List, [], ◌∷◌, ◌++◌, Bool-cases, inl, inr, ◌==◌, eqb, ltb, length, arith,
  if◌then◌else◌,
}
use ha.Exec.{ok, ok_inj}
use ha.Store.Etcd.{Client, KeyValue, Comparison}
use ha.Store.Etcd.Cas.{Passes, Revisions, Transactions}

abbrev pub Log : Type 0
Log = List (String × String)

-- The entry of a key, whose revision is the number of writes up to its own.
unfoldable pub entry_of : Log → String → Option KeyValue
entry_of [] k = none
entry_of ((j, text) ∷ log) k =
    let older = entry_of log k in
    if k == j then some (record { value = text; mod_revision = suc (length log) }) else older

pub record Sim : Type 0 where
  pub log : Log
  pub opened : Bool
  pub locked : Bool
  pub leader : Bool
  pub time : ℕ

abbrev pub entry : Sim → String → Option KeyValue
entry w k = entry_of w.log k

-- The log only grows.
abbrev pub Later : Sim → Sim → Type 0
Later v w = (more : Log) × (w.log ≡ more ++ v.log)

abbrev pub written : String → String → Sim → Sim
written k text w = record w { log = (k, text) ∷ w.log }

unfoldable pub passes : Comparison → Option KeyValue → Bool
passes Comparison.absent none = true
passes Comparison.absent (some kv) = false
passes (Comparison.unmodified revision) none = false
passes (Comparison.unmodified revision) (some kv) = eqb kv.mod_revision revision

abbrev pub context_error : ℕ → Option String
context_error n = if ltb 0 n then none else some "context canceled"

abbrev pub client : Client Sim
client = record {
  get = λ k w. (ok (entry w k), w);
  latest = λ k w. (ok [], w);
  put = λ k text w. (ok tt, written k text w);
  put_leased = λ session k text w. (ok tt, written k text w);
  delete = λ k w. (ok tt, w);
  put_if =
      λ c k text w. if passes c (entry w k) then (ok true, written k text w) else (ok false, w);
  new_session = λ ttl w. (ok 1, record w { opened = true; time = w.time - 1 });
  close_session = λ session w. record w { opened = false };
  lock = λ session k w. (ok tt, record w { locked = true });
  unlock = λ session k w. record w { locked = false };
  campaign = λ session k id w. (ok tt, record w { leader = true });
  resign = λ session k w. record w { leader = false };
  status = λ endpoint w. (ok tt, w);
  ctx_err = λ w. context_error w.time;
  sleep = λ w. record w { time = w.time - 1 };
}

some_inj : {A : Type 0} {a b : A} → some a ≡ some b → a ≡ b
some_inj h = cc

within_log :
    (log : Log) (k : String) (a : KeyValue) → entry_of log k ≡ some a → a.mod_revision ≤ length log
unfolding entry_of
within_log [] k a h = cc
within_log ((j, text) ∷ log) k a h = elim (Bool-cases (k == j)) [
  | inl same ↦
      let e = some_inj (rw same at h) in omega (arith, ap (λ (x : KeyValue). x.mod_revision) e)
  | inr other ↦ omega (arith, within_log log k a (rw other at h))
]

longer : (more log : Log) → length log ≤ length (more ++ log)
longer [] log = omega arith
longer (e ∷ more) log = omega (arith, longer more log)

append_assoc : (a b c : Log) → (a ++ b) ++ c ≡ a ++ (b ++ c)
append_assoc [] b c = refl
append_assoc (e ∷ a) b c = ap (λ rest. e ∷ rest) (append_assoc a b c)

false≢true : false ≡ true → ⊥
false≢true h = cc

same_entry :
    (more log : Log) (k : String) (a b : KeyValue)
    → entry_of log k ≡ some a
    → entry_of (more ++ log) k ≡ some b
    → a.mod_revision ≡ b.mod_revision
    → a ≡ b
unfolding entry_of
same_entry [] log k a b ha hb r = some_inj (sym ha ∙ hb)
same_entry ((j, text) ∷ more) log k a b ha hb r = elim (Bool-cases (k == j)) [
  | inl same ↦
      let e = some_inj (rw same at hb) in
      absurd (
        omega (
          arith,
          ap (λ (x : KeyValue). x.mod_revision) e,
          within_log log k a ha,
          longer more log,
          r,
        ))
  | inr other ↦ same_entry more log k a b ha (rw other at hb) r
]

passes-Passes : (c : Comparison) (e : Option KeyValue) → passes c e ≡ true → Passes c e
unfolding passes
passes-Passes Comparison.absent none h = refl
passes-Passes Comparison.absent (some kv) h = cc
passes-Passes (Comparison.unmodified revision) none h = cc
passes-Passes (Comparison.unmodified revision) (some kv) h = (kv, refl, ground arith)

own_entry :
    (log : Log) (k text : String)
    → entry_of ((k, text) ∷ log) k ≡ some (record { value = text; mod_revision = suc (length log) })
unfolding entry_of
own_entry log k text = rw (==_refl k) refl

other_entry :
    (log : Log) (j k text : String) → j ≢ k → entry_of ((k, text) ∷ log) j ≡ entry_of log j
unfolding entry_of
other_entry log j k text other = elim (Bool-cases (j == k)) [
  | inl same ↦ absurd (other ((==_iff j k).0 same))
  | inr apart ↦ rw apart refl
]

grown_log : (more log now : Log) → now ≡ more ++ log → length log ≤ length now
grown_log more log now e = omega (arith, longer more log, ap (λ l. length l) e)

pub client-Revisions : Revisions client entry Later
client-Revisions = record {
  later = λ u v w (more, a) (most, b).
      (most ++ more, b ∙ ap (λ log. most ++ log) a ∙ sym (append_assoc most more u.log));
  same_revision = λ k u v a b (more, grown) ha hb r.
      same_entry more u.log k a b ha (subst (λ log. entry_of log k ≡ some b) grown hb) r;
  get = λ k w found h. (w, ([], refl), ([], refl), ok_inj h);
}

pub client-Transactions : Transactions client entry Later
client-Transactions = record {
  revision = λ w. length w.log;
  order = λ u v (more, grown). grown_log more u.log v.log grown;
  put_if = λ c k text w h. elim (Bool-cases (passes c (entry w k))) [
    | inl passed ↦ (
      w,
      written k text w,
      ([], refl),
      ([], rw passed refl),
      passes-Passes c (entry w k) passed,
      refl,
      own_entry w.log k text,
      λ j other. other_entry w.log j k text other,
    )
    | inr failed ↦ absurd (false≢true (ok_inj (rw failed at h)))
  ];
}
