-- ===== src/Samples/Settings.antt =====
-- The limits that the broker of spinach/brokers/redis.py keeps, after three tasks are set on a server
-- that has the limit of another one.
use spinach.Prelude.{
  ℤ, pos, negsuc, ◌≡◌, refl, ap, ◌≢◌, inl, inr, true, false, String, List, [], ◌∷◌, ◌++◌, map, none,
  some, Dict, lookup, lookup-insert_self, lookup-insert_ne, str_eq, eq_iff, if◌then◌else◌, All,
  Bool-cases, arith,
}
use spinach.Outcome.{ok}
use spinach.Json.{num, neg, str, dict, field, end, dumps, loads, get}
use spinach.Redis.Scripts.{nothing}
use spinach.Redis.Scripts.Periodic.{contains, set_concurrency_keys}
use spinach.Redis.Scripts.Settings.{Setting, limit_of, count_with, KeepsFields, Reads}
use spinach.Redis.Scripts.Settings.Left.{set_concurrency_keys_lem}
use spinach.Samples.Server.{Store, server, server-KeepsCounts, without}

lookup-without : {V : Type 0} (k : String) (d : Dict V) → lookup k (without k d) ≡ none
unfolding lookup
lookup-without k [] = refl
lookup-without k ((j, v) ∷ d) = elim (Bool-cases (str_eq j k)) [
  | inl e ↦ rw (e) (lookup-without k d)
  | inr e ↦ rw (e) (rw (e) (lookup-without k d))
]

lookup-without_ne :
    {V : Type 0} (k g : String) (d : Dict V) → k ≢ g → lookup k (without g d) ≡ lookup k d
unfolding lookup
lookup-without_ne k g [] ne = refl
lookup-without_ne k g ((j, v) ∷ d) ne = elim (Bool-cases (str_eq j g)) [
  | inl e ↦
      let other : str_eq j k ≡ false = ground (arith, e, ne, eq_iff j g, eq_iff j k) in
      rw (e, other) (lookup-without_ne k g d ne)
  | inr e ↦ rw (e) (ap (λ r. if str_eq j k then some v else r) (lookup-without_ne k g d ne))
]

contains-keys :
    {V : Type 0} (f : String) (v : V) (d : Dict V) (before : List String)
    → lookup f d ≡ some v
    → contains (before ++ map (λ p. p.0) d) f ≡ true
unfolding lookup
contains-keys f v d (x ∷ before) e = ground (arith, contains-keys f v d before e)
contains-keys f v [] [] e = absurd (grind (arith, e))
contains-keys f v ((j, w) ∷ d) [] e = elim (Bool-cases (str_eq j f)) [
  | inl b ↦ rw (b) refl
  | inr b ↦ rw (b) (contains-keys f v d [] (ground (arith, e, b)))
]

pub server-KeepsFields : KeepsFields server
server-KeepsFields = record {
  hset_same = λ k f n s. rw (lookup-insert_self k _ s.counts) (lookup-insert_self f n _);
  hset_other_key = λ k f j g n s ne. rw (lookup-insert_ne j k _ s.counts ne) refl;
  hset_other_field =
      λ k f g n s ne. rw (lookup-insert_self k _ s.counts) (lookup-insert_ne g f n _ ne);
  hdel_same = λ k f s. rw (lookup-insert_self k _ s.counts) (lookup-without f _);
  hdel_other_field =
      λ k f g s ne. rw (lookup-insert_self k _ s.counts) (lookup-without_ne f g _ ne);
  hkeys_has = λ k f n s e. contains-keys f n _ _ e;
}

abbrev task : String → ℤ → Setting
task name limit = record {
  doc = dumps (
      dict (
        field "name" (str name)
          (field "max_concurrency" (elim limit [ pos n ↦ num n | negsuc n ↦ neg n ]) end)));
  name = name;
  max_concurrency = limit;
}

abbrev rows : List Setting
rows = task "send" (pos 2) ∷ task "clean" (negsuc 0) ∷ task "send" (pos 3) ∷ []

abbrev before : Store
before = record {
  keys = [];
  lists = [];
  hashes = [];
  counts =
      ("app/_max_concurrency", ("old", pos 1) ∷ ("send", pos 1) ∷ [])
      ∷ ("app/_current_concurrency", ("old", pos 1) ∷ ("send", pos 1) ∷ [])
      ∷ [];
  zsets = [];
  names = [];
}

keys_apart : ◌≢◌ {A = String} "app/_max_concurrency" "app/_current_concurrency"
keys_apart e = absurd (cc)

rows-Reads : All (Reads server) rows
unfolding get dumps loads
rows-Reads = ((refl, refl), ((refl, refl), ((refl, refl), tt)))

set_concurrency_keys_example :
    let (reply, after) =
      set_concurrency_keys server "app/_max_concurrency" "app/_current_concurrency"
        (map (λ r. r.doc) rows)
        before in
    (reply ≡ ok nothing)
    × (server.hget_number "app/_max_concurrency" "send" after ≡ limit_of "send" rows)
    × (server.hget_number "app/_current_concurrency" "send" after
        ≡ count_with
            (limit_of "send" rows)
            (server.hget_number "app/_current_concurrency" "send" before)
            none)
set_concurrency_keys_example =
    set_concurrency_keys_lem server server-KeepsFields server-KeepsCounts "app/_max_concurrency"
      "app/_current_concurrency" keys_apart rows before "send" rows-Reads
