-- ===== src/Redis/Scripts/Dead/Buried.antt =====
-- The run of enqueue_jobs_from_dead_broker.lua of spinach/brokers/redis_scripts: its reply, and what
-- becomes of the counts of the running jobs.
use mathlib.Core.List.{append_assoc, append-nil}
use spinach.Prelude.{
  ap₂, ℕ, ◌+◌, pos, negsuc, ◌+ℤ◌, ◌≡◌, refl, sym, ap, ◌∙◌, ◌≢◌, Bool, true, false, not, ◌&&◌,
  String, List, [], ◌∷◌, ◌++◌, map, some, ltb, leb_ℤ, Bool-cases, inl, inr, arith, str_eq, eq_iff,
  All, if◌then◌else◌, subst,
}
use spinach.Outcome.{Result, ok}
use spinach.Json.{Json}
use spinach.Redis.Commands.{Redis, CountsTasks, KeepsCounts, KeepsQueues}
use spinach.Redis.Scripts.{re_enqueued, is_limited, in_namespace, decrement}
use spinach.Redis.Scripts.Fetching.{re_enqueue_one, re_enqueue_all, enqueue_jobs_from_dead_broker}
use spinach.Redis.Scripts.Dead.{
  Row, has_retry, retried, retried_of, given_up, Reads, Counted, again, put_back,
}

module _ (redis : Redis) where
  open redis use {
    Store, lrange, decode, encode, hget_number, hincrby, hdel, rpush, zrem_name, publish,
  }

  module _ (running_jobs_key namespace max_key cur_key : String) where
    abbrev decremented : String → Store → Store
    decremented t s =
        if is_limited (hget_number max_key t s) then hincrby cur_key t (negsuc 0) s else s

    decrement-eq :
        (t : String) (s : Store) → decrement redis max_key cur_key t s ≡ (ok tt, decremented t s)
    unfolding decrement
    decrement-eq t s = elim (Bool-cases (is_limited (hget_number max_key t s))) [
      | inl e ↦ rw (e) refl
      | inr e ↦ rw (e) refl
    ]

    abbrev re_added : Row → Store → Store
    re_added r s =
        hdel running_jobs_key r.id
          (rpush (in_namespace namespace r.queue) (again redis r) (decremented r.task_name s))

    has_retry-test :
        (r : Row) (b : Bool)
        → has_retry r ≡ b
        → (not (leb_ℤ (pos r.max_retries) (pos 0))
            && not (leb_ℤ (pos r.max_retries) (pos r.retries)))
          ≡ b
    has_retry-test r true e = ground arith
    has_retry-test r false e = ground arith

    re_enqueue_one-retried :
        (n : ℕ) (failed : List Json) (r : Row) (s : Store)
        → Reads redis r
        → has_retry r ≡ true
        → re_enqueue_one redis running_jobs_key namespace max_key cur_key n failed r.doc s
          ≡ (ok (n + 1, failed), re_added r s)
    unfolding re_enqueue_one
    re_enqueue_one-retried n failed r s h e =
        rw
          (
            h.max_retries_read,
            h.retries_read,
            has_retry-test r true e,
            h.task_name_read,
            decrement-eq r.task_name s,
            h.queue_read,
            h.id_read,
          )
          refl

    re_enqueue_one-given_up :
        (n : ℕ) (failed : List Json) (r : Row) (s : Store)
        → Reads redis r
        → has_retry r ≡ false
        → re_enqueue_one redis running_jobs_key namespace max_key cur_key n failed r.doc s
          ≡ (ok (n, failed ++ r.doc ∷ []), hdel running_jobs_key r.id s)
    unfolding re_enqueue_one
    re_enqueue_one-given_up n failed r s h e =
        rw (h.max_retries_read, h.retries_read, has_retry-test r false e, h.id_read) refl

    -- The server after the loop.
    unfoldable pub buried : List Row → Store → Store
    buried [] s = s
    buried (r ∷ rows) s =
        buried rows (if has_retry r then re_added r s else hdel running_jobs_key r.id s)

    abbrev reply : ℕ → List Json → Store → Result (ℕ × List Json) × Store
    reply n failed s = (ok (n, failed), s)

    same_reply :
        {m n : ℕ} {xs ys : List Json} (s : Store) → m ≡ n → xs ≡ ys → reply m xs s ≡ reply n ys s
    same_reply s e f = ap₂ (λ x y. reply x y s) e f

    -- The loop reads every job, counts those with a retry left and keeps the others.
    re_enqueue_all-buried :
        (rows : List Row) (n : ℕ) (failed : List Json) (s : Store)
        → All (Reads redis) rows
        → re_enqueue_all redis running_jobs_key namespace max_key cur_key n failed
            (map (λ r. r.doc) rows)
            s
          ≡ (ok (n + retried rows, failed ++ given_up rows), buried rows s)
    unfolding re_enqueue_all retried given_up buried
    re_enqueue_all-buried [] n failed s h = same_reply s (omega arith) (sym (append-nil failed))
    re_enqueue_all-buried (r ∷ rows) n failed s (h, hs) = elim (Bool-cases (has_retry r)) [
      | inl e ↦
          rw (e, re_enqueue_one-retried n failed r s h e)
            (re_enqueue_all-buried rows (n + 1) failed (re_added r s) hs
              ∙ same_reply _ (omega arith) refl)
      | inr e ↦
          rw (e, re_enqueue_one-given_up n failed r s h e)
            (re_enqueue_all-buried rows n (failed ++ r.doc ∷ []) (hdel running_jobs_key r.id s) hs
              ∙ same_reply _ refl (append_assoc failed (r.doc ∷ []) (given_up rows)))
    ]

    module _ (queues : KeepsQueues redis) (queue_key : String)
        (queue_running : queue_key ≢ running_jobs_key) (queue_counts : queue_key ≢ cur_key) where
      decremented-lrange :
          (t : String) (s : Store) → lrange queue_key (decremented t s) ≡ lrange queue_key s
      decremented-lrange t s = elim (Bool-cases (is_limited (hget_number max_key t s))) [
        | inl e ↦ rw (e) (queues.hincrby_apart queue_key cur_key t (negsuc 0) s queue_counts)
        | inr e ↦ rw (e) refl
      ]

      rpush-lrange :
          (r : Row) (s : Store)
          → lrange queue_key (rpush (in_namespace namespace r.queue) (again redis r) s) ≡ (
              if str_eq (in_namespace namespace r.queue) queue_key
              then lrange queue_key s ++ again redis r ∷ []
              else lrange queue_key s)
      rpush-lrange r s =
          let key = in_namespace namespace r.queue in
          elim (Bool-cases (str_eq key queue_key)) [
            | inl e ↦
                let same = (eq_iff key queue_key).0 e in
                rw (e) (
                  ap (λ k. lrange queue_key (rpush k (again redis r) s)) same
                  ∙ queues.rpush_behind queue_key (again redis r) s)
            | inr e ↦ rw (e) (
                queues.rpush_other queue_key key (again redis r) s
                  (λ u. absurd (ground (arith, e, u, eq_iff key queue_key))))
          ]

      re_added-lrange :
          (r : Row) (s : Store)
          → lrange queue_key (re_added r s) ≡ (
              if str_eq (in_namespace namespace r.queue) queue_key
              then lrange queue_key s ++ again redis r ∷ []
              else lrange queue_key s)
      re_added-lrange r s =
          let t = decremented r.task_name s in
          queues.hdel_apart queue_key running_jobs_key r.id
            (rpush (in_namespace namespace r.queue) (again redis r) t) queue_running
          ∙ rpush-lrange r t
          ∙ rw (decremented-lrange r.task_name s) refl

      -- The jobs with a retry left are behind their queues again, in their order.
      buried-put_back :
          (rows : List Row) (s : Store)
          → lrange queue_key (buried rows s)
            ≡ lrange queue_key s ++ put_back redis namespace queue_key rows
      unfolding buried put_back
      buried-put_back [] s = sym (append-nil (lrange queue_key s))
      buried-put_back (r ∷ rows) s = elim (Bool-cases (has_retry r)) [
        | inr e ↦ rw (e) (
            buried-put_back rows (hdel running_jobs_key r.id s)
            ∙ ap (λ l. l ++ put_back redis namespace queue_key rows)
                (queues.hdel_apart queue_key running_jobs_key r.id s queue_running))
        | inl e ↦ elim (Bool-cases (str_eq (in_namespace namespace r.queue) queue_key)) [
          | inl q ↦
              rw (e, q)
                (buried-put_back rows (re_added r s)
                  ∙ ap (λ l. l ++ put_back redis namespace queue_key rows)
                      (re_added-lrange r s ∙ rw (q) refl)
                  ∙ append_assoc (lrange queue_key s) (again redis r ∷ [])
                      (put_back redis namespace queue_key rows))
          | inr q ↦
              rw (e, q)
                (buried-put_back rows (re_added r s)
                  ∙ ap (λ l. l ++ put_back redis namespace queue_key rows)
                      (re_added-lrange r s ∙ rw (q) refl))
        ]
      ]

    module _ (counts : CountsTasks redis) (keeps : KeepsCounts redis) (name : String) (limit : ℕ)
        (limits_counts : max_key ≢ cur_key) (limits_running : max_key ≢ running_jobs_key)
        (counts_running : cur_key ≢ running_jobs_key) where
      abbrev Held : ℕ → Store → Type 0
      Held n s = Counted redis max_key cur_key name limit n s

      Held-same :
          (n : ℕ) (s t : Store)
          → hget_number max_key name t ≡ hget_number max_key name s
          → hget_number cur_key name t ≡ hget_number cur_key name s
          → Held n s
          → Held n t
      Held-same n s t m c (h, k) = (m ∙ h, c ∙ k)

      recount : {m n : ℕ} (s : Store) → m ≡ n → Held m s → Held n s
      recount s e h = subst (λ k. Held k s) e h

      hdel-Held : (n : ℕ) (id : String) (s : Store) → Held n s → Held n (hdel running_jobs_key id s)
      hdel-Held n id s =
          Held-same n s (hdel running_jobs_key id s)
            (keeps.hdel_other max_key name running_jobs_key id s limits_running)
            (keeps.hdel_other cur_key name running_jobs_key id s counts_running)

      rpush-Held :
          (n : ℕ) (queue : String) (doc : Json) (s : Store) → Held n s → Held n (rpush queue doc s)
      rpush-Held n queue doc s =
          Held-same n s (rpush queue doc s) (keeps.rpush_hash max_key name queue doc s)
            (keeps.rpush_hash cur_key name queue doc s)

      other-Held : (n : ℕ) (t : String) (s : Store) → name ≢ t → Held n s → Held n (decremented t s)
      other-Held n t s ne h = elim (Bool-cases (is_limited (hget_number max_key t s))) [
        | inl e ↦ rw (e) (
            Held-same n s (hincrby cur_key t (negsuc 0) s)
              (counts.hincrby_other_key max_key name cur_key t (negsuc 0) s limits_counts)
              (counts.hincrby_other_field cur_key name t (negsuc 0) s ne) h)
        | inr e ↦ rw (e) h
      ]

      limited : is_limited (some (pos limit)) ≡ true
      limited = ground arith

      one_less : (n : ℕ) → pos (n + 1) +ℤ negsuc 0 ≡ pos n
      one_less n = ground arith

      own-Held : (n : ℕ) (s : Store) → Held (n + 1) s → Held n (decremented name s)
      own-Held n s (m, c) =
          rw (m, limited)
            (
              counts.hincrby_other_key max_key name cur_key name (negsuc 0) s limits_counts ∙ m,
              counts.hincrby_same cur_key name (negsuc 0) (pos (n + 1)) s c ∙ ap some (one_less n),
            )

      re_added-Held :
          (n : ℕ) (r : Row) (s : Store) → Held n (decremented r.task_name s) → Held n (re_added r s)
      re_added-Held n r s h =
          hdel-Held n r.id
            (rpush (in_namespace namespace r.queue) (again redis r) (decremented r.task_name s))
            (rpush-Held n (in_namespace namespace r.queue) (again redis r)
              (decremented r.task_name s) h)

      -- Each job of the task that is enqueued again gives its place up, and no other.
      buried-Held :
          (rows : List Row) (n : ℕ) (s : Store)
          → Held (n + retried_of name rows) s
          → Held n (buried rows s)
      unfolding buried retried_of
      buried-Held [] n s h = recount s (omega arith) h
      buried-Held (r ∷ rows) n s h = elim (Bool-cases (has_retry r)) [
        | inr e ↦ rw (e) (buried-Held rows n _ (hdel-Held _ r.id s (recount s (ground arith) h)))
        | inl e ↦ elim (Bool-cases (str_eq r.task_name name)) [
          | inl t ↦ rw (e) (
              buried-Held rows n _ (
                re_added-Held _ r s (
                  subst (λ u. Held (n + retried_of name rows) (decremented u s))
                    (sym ((eq_iff r.task_name name).0 t))
                    (own-Held _ s (recount s (ground arith) h)))))
          | inr t ↦ rw (e) (
              buried-Held rows n _ (
                re_added-Held _ r s (
                  other-Held _ r.task_name s (λ u. absurd (ground (arith, eq_iff r.task_name name)))
                    (recount s (ground arith) h))))
        ]
      ]

      -- If everything that the script reads of the jobs is there, it replies with the number of the
      -- jobs that have a retry left and with the texts of all the others; the jobs with a retry left go
      -- behind their queues, as queued, with one more retry and in their order; and if the count of a
      -- task with a limit includes its jobs with a retry left, it goes down by one for each of them.
      -- It does not go down for a job that is given up. The keys are different ones.
      pub dead_broker_buried :
          (rows : List Row) (dead_broker_id brokers_hash brokers_zset notifications : String)
          (queues : KeepsQueues redis) (queue_key : String) (n : ℕ) (s : Store)
          → queue_key ≢ running_jobs_key
          → queue_key ≢ cur_key
          → queue_key ≢ brokers_hash
          → queue_key ≢ brokers_zset
          → max_key ≢ brokers_hash
          → cur_key ≢ brokers_hash
          → redis.hvals running_jobs_key s ≡ map (λ r. r.doc) rows
          → All (Reads redis) rows
          → Counted redis max_key cur_key name limit (n + retried_of name rows) s
          → let (reply, after) =
              enqueue_jobs_from_dead_broker redis dead_broker_id running_jobs_key brokers_hash
                brokers_zset namespace notifications max_key cur_key s in
            (reply ≡ ok (re_enqueued (retried rows) (given_up rows)))
            × (redis.lrange queue_key after
                ≡ redis.lrange queue_key s ++ put_back redis namespace queue_key rows)
            × Counted redis max_key cur_key name limit n after
      unfolding enqueue_jobs_from_dead_broker
      dead_broker_buried rows dead_broker_id brokers_hash brokers_zset notifications queues
            queue_key n s queue_running queue_counts queue_hash queue_zset limits_brokers
            counts_brokers listed h c =
          let last = buried rows s in
          let unlisted = hdel brokers_hash dead_broker_id last in
          let removed = zrem_name brokers_zset dead_broker_id unlisted in
          let counted : Held n removed =
            Held-same n last removed
              (keeps.zrem_hash max_key name brokers_zset dead_broker_id unlisted
                ∙ keeps.hdel_other max_key name brokers_hash dead_broker_id last limits_brokers)
              (keeps.zrem_hash cur_key name brokers_zset dead_broker_id unlisted
                ∙ keeps.hdel_other cur_key name brokers_hash dead_broker_id last counts_brokers)
              (buried-Held rows n s c) in
          let queued : lrange queue_key removed
              ≡ lrange queue_key s ++ put_back redis namespace queue_key rows =
            queues.zrem_apart queue_key brokers_zset dead_broker_id unlisted queue_zset
            ∙ queues.hdel_apart queue_key brokers_hash dead_broker_id last queue_hash
            ∙ buried-put_back queues queue_key queue_running queue_counts rows s in
          let queued_notified = queues.publish_list queue_key notifications removed ∙ queued in
          elim (Bool-cases (ltb 0 (0 + retried rows))) [
            | inl e ↦
                rw (listed, re_enqueue_all-buried rows 0 [] s h, e)
                  (
                    ap ok (ap₂ re_enqueued (omega arith) refl),
                    queued_notified,
                    Held-same n removed (publish notifications removed)
                        (keeps.publish_hash max_key name notifications removed)
                        (keeps.publish_hash cur_key name notifications removed) counted,
                  )
            | inr e ↦
                rw (listed, re_enqueue_all-buried rows 0 [] s h, e)
                  (ap ok (ap₂ re_enqueued (omega arith) refl), queued, counted)
          ]
