-- ===== src/Store/Etcd/Tasks.antt =====
-- `EtcdStore.ListTasks` (internal/store/store.go) against the limit of `MemoryStore.ListTasks`.
use ha.Base.{
  ◌<>◌, ℕ, zero, suc, ◌+◌, ◌≤◌, ◌≡◌, refl, ap, ◌∙◌, true, false, ◌&&◌, inl, inr, List, [], ◌∷◌,
  arith, length, take, ltb, leb, Bool-cases,
}
use ha.Base.Int.{ℤ, pos, negsuc, ltb_ℤ}
use ha.Exec.{ok, continue}
use ha.Model.{SwitchTask}
use ha.Store.Memory.{limited}
use ha.Store.Etcd.{KeyValue, Json, EtcdStore, Process, decode_tasks, list_tasks}

-- The entries are the tasks, in this order, as JSON reads them.
pub data Reads (format : Json SwitchTask) : List KeyValue → List SwitchTask → Type 0 where
  none_left : Reads format [] []
  one_more :
      {kv : KeyValue} {task : SwitchTask} {kvs : List KeyValue} {tasks : List SwitchTask}
      → format.unmarshal kv.value ≡ ok task
      → Reads format kvs tasks
      → Reads format (kv ∷ kvs) (task ∷ tasks)

take-all : {A : Type 0} (n : ℕ) (xs : List A) → length xs ≤ n → take n xs ≡ xs
take-all zero [] h = refl
take-all zero (x ∷ xs) h = absurd (omega (arith, h))
take-all (suc n) [] h = refl
take-all (suc n) (x ∷ xs) h = ap (λ rest. x ∷ rest) (take-all n xs (omega (arith, h)))

module _ (format : Json SwitchTask) where
  without_limit :
      (limit : ℤ) (read : ℕ) {kvs : List KeyValue} {tasks : List SwitchTask}
      → ltb_ℤ (pos 0) limit ≡ false
      → Reads format kvs tasks
      → decode_tasks format limit read kvs ≡ ok tasks
  unfolding decode_tasks
  without_limit limit read h none_left = refl
  without_limit limit read h (one_more e r) = rw (e, h, without_limit limit (read + 1) h r) refl

  with_limit :
      (n read left : ℕ) {kvs : List KeyValue} {tasks : List SwitchTask}
      → n ≡ read + suc left
      → Reads format kvs tasks
      → decode_tasks format (pos n) read kvs ≡ ok (take (suc left) tasks)
  unfolding decode_tasks
  with_limit n read left h none_left = refl
  with_limit n read zero h (one_more e r) =
      let stop : (ltb_ℤ (pos 0) (pos n) && leb n (read + 1)) ≡ true = ground arith in
      rw (e, stop) refl
  with_limit n read (suc left) h (one_more e r) =
      let on : (ltb_ℤ (pos 0) (pos n) && leb n (read + 1)) ≡ false = ground arith in
      rw (e, on, with_limit n (read + 1) left (omega arith) r) refl

  -- The tasks that a complete reading gives, cut as `MemoryStore` cuts them.
  decode_tasks-limited :
      (limit : ℤ) {kvs : List KeyValue} {tasks : List SwitchTask}
      → Reads format kvs tasks
      → decode_tasks format limit 0 kvs ≡ ok (limited limit tasks)
  unfolding limited
  decode_tasks-limited (negsuc n) r =
      let none_given : ltb_ℤ (pos 0) (negsuc n) ≡ false = ground arith in
      rw none_given (without_limit (negsuc n) 0 none_given r)
  decode_tasks-limited (pos zero) r = without_limit (pos zero) 0 refl r
  decode_tasks-limited (pos (suc n)) {tasks = tasks} r =
      let positive : ltb_ℤ (pos 0) (pos (suc n)) ≡ true = ground arith in
      elim (Bool-cases (ltb (suc n) (length tasks))) [
        | inl more ↦ rw (positive, more) (with_limit (suc n) 0 n (omega arith) r)
        | inr all ↦
            rw (positive, all)
              (with_limit (suc n) 0 n (omega arith) r
                ∙ ap ok (take-all (suc n) tasks (ground arith)))
      ]

-- Where etcd returns entries that JSON reads, `ListTasks` returns their tasks in the order of etcd, cut at a
-- positive limit as `MemoryStore` cuts its own.
pub list_tasks-limited :
    {W : Type 0} (s : EtcdStore W) (limit : ℤ) (p : Process W) (kvs : List KeyValue)
    (tasks : List SwitchTask)
    → (s.client.latest (s.prefix <> "/tasks/") p.world).0 ≡ ok kvs
    → Reads s.formats.task kvs tasks
    → (list_tasks s limit p).0 ≡ ok (limited limit tasks)
unfolding list_tasks continue
list_tasks-limited s limit p kvs tasks got r = rw got (decode_tasks-limited s.formats.task limit r)
