-- ===== src/Redis/Scripts/Settings/Left.antt =====
-- set_concurrency_keys.lua of spinach/brokers/redis_scripts removes the limits and the counts that are
-- not set again.
use spinach.Prelude.{
  ◌≡◌, refl, sym, ap, ◌∙◌, ◌≢◌, ◌⊎◌, inl, inr, true, false, String, List, [], ◌∷◌, map, none, some,
  Bool-cases, Option-cases, arith, str_eq, eq_iff, All,
}
use spinach.Outcome.{ok}
use spinach.Redis.Commands.{Redis, KeepsCounts}
use spinach.Redis.Scripts.{nothing, is_limited}
use spinach.Redis.Scripts.Settings.{
  Setting, limit_of, count_with, KeepsFields, Reads, is_name, names_in, set_all-Sets,
}
use spinach.Redis.Scripts.Periodic.{contains, forget, set_all, set_concurrency_keys}

module _ (redis : Redis) (laws : KeepsFields redis) (counts : KeepsCounts redis)
    (max_key cur_key : String) (apart : max_key ≢ cur_key) where
  open redis use {Store, decode, hget_number, hset_number, hdel, hkeys}

  -- Only the old names that are not among the new ones lose their field.
  forget-kept :
      (k j f : String) (new old : List String) (s : Store)
      → ((g : String) (t : Store)
          → contains new g ≡ false
          → hget_number k f (hdel j g t) ≡ hget_number k f t)
      → hget_number k f (forget redis (hdel j) new old s) ≡ hget_number k f s
  unfolding forget
  forget-kept k j f new [] s h = refl
  forget-kept k j f new (g ∷ old) s h =
      forget-kept k j f new old _ h
      ∙ elim (Bool-cases (contains new g)) [ inl e ↦ rw (e) refl | inr e ↦ rw (e) (h g s e) ]

  forget-gone :
      (k f : String) (new old : List String) (s : Store)
      → contains new f ≡ false
      → (contains old f ≡ true) ⊎ (hget_number k f s ≡ none)
      → hget_number k f (forget redis (hdel k) new old s) ≡ none
  unfolding forget
  forget-gone k f new [] s out (inl e) = absurd (ground (arith, e))
  forget-gone k f new [] s out (inr e) = e
  forget-gone k f new (g ∷ old) s out h = elim (Bool-cases (str_eq g f)) [
    | inl e ↦
        let same = is_name g f e in
        let not_new = ap (λ x. contains new x) same ∙ out in
        rw (not_new) (forget-gone k f new old _ out (inr (rw (same) (laws.hdel_same k f s))))
    | inr e ↦
        let differ : f ≢ g = λ x. ground (arith, e, x, eq_iff g f) in
        elim (Bool-cases (contains new g)) [
          | inl c ↦ rw (c) (
              forget-gone k f new old s out
                (elim h [ inl x ↦ inl (ground (arith, x, e)) | inr x ↦ inr x ]))
          | inr c ↦ rw (c) (
              forget-gone k f new old _ out (elim h [
                | inl x ↦ inl (ground (arith, x, e))
                | inr x ↦ inr (laws.hdel_other_field k f g s differ ∙ x)
              ]))
        ]
  ]

  limit_of-contains :
      (name : String) (rows : List Setting)
      → contains (names_in rows) name ≡ elim (limit_of name rows) [ none ↦ false | some m ↦ true ]
  unfolding limit_of names_in
  limit_of-contains name [] = refl
  limit_of-contains name (r ∷ rows) = elim (Bool-cases (is_limited (some r.max_concurrency))) [
    | inl l ↦ elim (Option-cases (limit_of name rows)) [
      | inl e ↦ elim (Bool-cases (str_eq r.name name)) [
        | inl b ↦ rw (e, l, b) refl
        | inr b ↦ rw (e, l, b) (limit_of-contains name rows ∙ rw (e) refl)
      ]
      | inr (m, e) ↦ elim (Bool-cases (str_eq r.name name)) [
        | inl b ↦ rw (e, l, b) refl
        | inr b ↦ rw (e, l, b) (limit_of-contains name rows ∙ rw (e) refl)
      ]
    ]
    | inr l ↦ elim (Option-cases (limit_of name rows)) [
      | inl e ↦ rw (e, l) (limit_of-contains name rows ∙ rw (e) refl)
      | inr (m, e) ↦ rw (e, l) (limit_of-contains name rows ∙ rw (e) refl)
    ]
  ]

  absent :
      (k f : String) (s t : Store)
      → hget_number k f t ≡ hget_number k f s
      → (contains (hkeys k s) f ≡ true) ⊎ (hget_number k f t ≡ none)
  absent k f s t e = elim (Option-cases (hget_number k f s)) [
    | inl x ↦ inr (e ∙ x)
    | inr (n, x) ↦ inl (laws.hkeys_has k f n s x)
  ]

  -- A name that is kept is not one of those that are removed.
  kept-differs :
      (new : List String) (f g : String) → contains new f ≡ true → contains new g ≡ false → f ≢ g
  kept-differs new f g kept gone e =
      let same = ap (λ x. contains new x) e in absurd (ground (arith, same, kept, gone))

  -- If the limits and the counts are under different keys, and the name and the limit of each task can be
  -- read, the script returns; after it a task has the limit that the last of its settings with a limit
  -- gives it, a count that was there is kept, a new one is zero, and every other limit and count is gone.
  pub set_concurrency_keys_lem :
      (rows : List Setting) (s : Store) (name : String)
      → All (Reads redis) rows
      → let (reply, t) = set_concurrency_keys redis max_key cur_key (map (λ r. r.doc) rows) s in
        (reply ≡ ok nothing)
        × (hget_number max_key name t ≡ limit_of name rows)
        × (hget_number cur_key name t
            ≡ count_with (limit_of name rows) (hget_number cur_key name s) none)
  unfolding set_concurrency_keys
  set_concurrency_keys_lem rows s name h =
      let (made, sets) = set_all-Sets redis laws counts max_key cur_key apart rows s h in
      let (max_set, cur_set) = sets name in
      let new = names_in rows in
      let t = (set_all redis max_key cur_key (map (λ r. r.doc) rows) s).1 in
      let max_left =
        forget-kept max_key cur_key name new (hkeys cur_key s) _
          (λ g u c. counts.hdel_other max_key name cur_key g u apart) in
      let cur_left =
        forget-kept cur_key max_key name new (hkeys max_key s) t
          (λ g u c. counts.hdel_other cur_key name max_key g u (λ x. apart (sym x))) in
      elim (Option-cases (limit_of name rows)) [
        | inl e ↦
            let out = limit_of-contains name rows ∙ rw (e) refl in
            rw (made, e)
              (
                refl,
                max_left
                    ∙ forget-gone max_key name new (hkeys max_key s) t out
                        (absent max_key name s t (max_set ∙ rw (e) refl)),
                forget-gone cur_key name new (hkeys cur_key s) _ out
                    (absent cur_key name s _ (cur_left ∙ cur_set ∙ rw (e) refl)),
              )
        | inr (m, e) ↦
            let kept = limit_of-contains name rows ∙ rw (e) refl in
            rw (made, e)
              (
                refl,
                max_left
                    ∙ forget-kept max_key max_key name new (hkeys max_key s) t (λ g u c.
                      laws.hdel_other_field max_key name g u (kept-differs new name g kept c))
                    ∙ max_set
                    ∙ rw (e) refl,
                forget-kept cur_key cur_key name new (hkeys cur_key s) _ (λ g u c.
                      laws.hdel_other_field cur_key name g u (kept-differs new name g kept c))
                    ∙ cur_left
                    ∙ cur_set
                    ∙ rw (e) refl,
              )
      ]
