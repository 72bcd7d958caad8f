-- ===== src/Samples/Server.antt =====
-- A small server of Redis, which keeps the laws of its commands that the broker of
-- spinach/brokers/redis.py relies on.
use text.Mathlib.TextPositions.{eq_refl}
use spinach.Prelude.{
  ℕ, ◌+◌, ℤ, pos, ◌+ℤ◌, leb_ℤ, ◌≡◌, refl, Bool, true, false, String, List, [], ◌∷◌, ◌++◌, map,
  Option, none, some, Dict, lookup, insert, lookup-insert_self, lookup-insert_ne, str_eq, length,
  inl, inr, Bool-cases, if◌then◌else◌, arith,
}
use spinach.Json.{end, Json, Value, str, dict, dumps, loads, get}
use spinach.Queuey.Order.{take}
use spinach.Redis.Commands.{
  Redis, KeepsTokens, KeepsLists, CountsTasks, KeepsCounts, KeepsOrder, KeepsQueues,
}

pub record Store : Type 0 where
  pub keys : List String
  pub lists : Dict (List Json)
  pub hashes : Dict (Dict Json)
  pub counts : Dict (Dict ℤ)
  pub zsets : Dict (List (Json × ℤ))
  pub names : Dict (List (String × ℤ))

abbrev the : {V : Type 0} → V → Option V → V
the d none = d
the d (some v) = v

abbrev known : String → List String → Bool
known k [] = false
known k (j ∷ js) = if str_eq j k then true else known k js

-- The first, or all, up to a score.
abbrev upto : {A : Type 0} → Option ℤ → List (A × ℤ) → List (A × ℤ)
upto none xs = xs
upto (some top) [] = []
upto (some top) ((a, n) ∷ xs) = if leb_ℤ n top then (a, n) ∷ upto (some top) xs else []

abbrev at_most : {A : Type 0} → Option ℕ → List A → List A
at_most none xs = xs
at_most (some n) xs = take n xs

abbrev in_order : {A : Type 0} → A → ℤ → List (A × ℤ) → List (A × ℤ)
in_order a n [] = (a, n) ∷ []
in_order a n ((b, m) ∷ xs) = if leb_ℤ m n then (b, m) ∷ in_order a n xs else (a, n) ∷ (b, m) ∷ xs

abbrev pub without : {V : Type 0} → String → Dict V → Dict V
without k [] = []
without k ((j, v) ∷ d) = if str_eq j k then without k d else (j, v) ∷ without k d

abbrev id_of : Json → Option Value
id_of doc = elim (loads doc) [ dict fs ↦ get "id" fs | _ ↦ none ]

abbrev same_id : Json → Json → Bool
same_id a b = elim (id_of a) [
  | some (str s) ↦ elim (id_of b) [ some (str t) ↦ str_eq s t | _ ↦ false ]
  | _ ↦ false
]

abbrev drop_doc : Json → List (Json × ℤ) → List (Json × ℤ)
drop_doc doc [] = []
drop_doc doc ((b, n) ∷ xs) = if same_id doc b then xs else (b, n) ∷ drop_doc doc xs

abbrev pop : List Json → Option Json × List Json
pop [] = (none, [])
pop (v ∷ vs) = (some v, vs)

abbrev lists_at : String → Store → List Json
lists_at k s = the [] (lookup k s.lists)

abbrev hash_at : String → Store → Dict Json
hash_at k s = the [] (lookup k s.hashes)

abbrev counts_at : String → Store → Dict ℤ
counts_at k s = the [] (lookup k s.counts)

abbrev zset_at : String → Store → List (Json × ℤ)
zset_at k s = the [] (lookup k s.zsets)

abbrev names_at : String → Store → List (String × ℤ)
names_at k s = the [] (lookup k s.names)

abbrev pop_list : String → Store → Option Json × Store
pop_list k s = let (v, vs) = pop (lists_at k s) in (v, record s { lists = insert k vs s.lists })

abbrev pub server : Redis
server = record {
  Store = Store;
  has_key = λ k s. known k s.keys;
  set_nx = λ k s. if known k s.keys then (false, s) else (true, record s { keys = k ∷ s.keys });
  rpush = λ k v s. record s { lists = insert k (lists_at k s ++ v ∷ []) s.lists };
  lpush = λ k v s. record s { lists = insert k (v ∷ lists_at k s) s.lists };
  lpop = pop_list;
  llen = λ k s. length (lists_at k s);
  lrange = lists_at;
  hget = λ k f s. lookup f (hash_at k s);
  hget_number = λ k f s. lookup f (counts_at k s);
  hset = λ k f v s. record s { hashes = insert k (insert f v (hash_at k s)) s.hashes };
  hset_number = λ k f n s. record s { counts = insert k (insert f n (counts_at k s)) s.counts };
  hincrby = λ k f n s. record s {
    counts =
        insert k (insert f (the (pos 0) (lookup f (counts_at k s)) +ℤ n) (counts_at k s)) s.counts;
  };
  hdel = λ k f s. record s {
    hashes = insert k (without f (hash_at k s)) s.hashes;
    counts = insert k (without f (counts_at k s)) s.counts;
  };
  hkeys = λ k s. map (λ p. p.0) (hash_at k s) ++ map (λ p. p.0) (counts_at k s);
  hvals = λ k s. map (λ p. p.1) (hash_at k s);
  zadd = λ k n v s. record s { zsets = insert k (in_order v n (drop_doc v (zset_at k s))) s.zsets };
  zrem = λ k v s. record s { zsets = insert k (drop_doc v (zset_at k s)) s.zsets };
  zrange = λ k top n s. at_most n (upto top (zset_at k s));
  zadd_name =
      λ k n v s. record s { names = insert k (in_order v n (without v (names_at k s))) s.names };
  zrem_name = λ k v s. record s { names = insert k (without v (names_at k s)) s.names };
  zrange_names = λ k top n s. at_most n (upto top (names_at k s));
  publish = λ k s. s;
  keys_of = λ n s. map (λ p. p.0) s.lists;
  del = λ k s. record s { lists = without k s.lists };
  decode = λ doc. elim (loads doc) [ dict fs ↦ fs | _ ↦ end ];
  encode = λ fs. dumps (dict fs);
}

known_self : (k : String) (ks : List String) → known k (k ∷ ks) ≡ true
known_self k ks = rw (eq_refl k) refl

pub server-KeepsTokens : KeepsTokens server
server-KeepsTokens = record {
  set_nx_fresh = λ k s e. rw (e) refl;
  set_nx_has = λ k s. elim (Bool-cases (known k s.keys)) [
    | inl t ↦ rw (t) t
    | inr t ↦ rw (t) (known_self k s.keys)
  ];
  set_nx_again = λ k s e. rw (e) refl;
  rpush_keeps = λ k j v s e. e;
  hincrby_keeps = λ k j f n s e. e;
  hdel_keeps = λ k j f s ne e. e;
  zadd_keeps = λ k j n v s e. e;
  publish_keeps = λ k j s e. e;
}

pop_shorter : (vs : List Json) (v : Json) → (pop vs).0 ≡ some v → length (pop vs).1 + 1 ≡ length vs
pop_shorter [] v e = absurd (grind (arith, e))
pop_shorter (w ∷ vs) v e = omega arith

pub server-KeepsLists : KeepsLists server
server-KeepsLists = record {
  lpop_shorter = λ k v s e.
      rw (lookup-insert_self k (pop (lists_at k s)).1 s.lists) (pop_shorter (lists_at k s) v e);
  hset_llen = λ k j f v s ne. refl;
  hincrby_llen = λ k j f n s ne. refl;
}

pub server-CountsTasks : CountsTasks server
server-CountsTasks = record {
  hincrby_same = λ k f n c s e.
      rw (lookup-insert_self k _ s.counts, lookup-insert_self f _ (counts_at k s), e) refl;
  hincrby_other_key = λ k f j g n s ne. rw (lookup-insert_ne j k _ s.counts ne) refl;
  hincrby_other_field = λ k f g n s ne.
      rw (lookup-insert_self k _ s.counts) (lookup-insert_ne g f _ (counts_at k s) ne);
  hset_other = λ k f j g v s ne. refl;
  lpop_other = λ k f j s ne. refl;
  lpush_other = λ k f j v s ne. refl;
}

pub server-KeepsCounts : KeepsCounts server
server-KeepsCounts = record {
  hdel_other = λ k f j g s ne. rw (lookup-insert_ne j k _ s.counts ne) refl;
  rpush_hash = λ k f j v s. refl;
  zrem_hash = λ k f j name s. refl;
  publish_hash = λ k f j s. refl;
}

pop_empty : (vs : List Json) → vs ≡ [] → ((pop vs).0 ≡ none) × ((pop vs).1 ≡ [])
pop_empty vs e = rw (e) (refl, refl)

pop_first : (vs ws : List Json) (v : Json) → vs ≡ v ∷ ws → ((pop vs).0 ≡ some v) × ((pop vs).1 ≡ ws)
pop_first vs ws v e = rw (e) (refl, refl)

pub server-KeepsOrder : KeepsOrder server
server-KeepsOrder = record {
  llen_list = λ k s. refl;
  lpop_empty = λ k s e.
      let (popped, left) = pop_empty (lists_at k s) e in
      (popped, rw (lookup-insert_self k (pop (lists_at k s)).1 s.lists) left);
  lpop_first = λ k v vs s e.
      let (popped, left) = pop_first (lists_at k s) vs v e in
      (popped, rw (lookup-insert_self k (pop (lists_at k s)).1 s.lists) left);
  lpush_front = λ k v s. rw (lookup-insert_self k (v ∷ lists_at k s) s.lists) refl;
  hset_list = λ k j f v s ne. refl;
  hincrby_list = λ k j f n s ne. refl;
}

pub server-KeepsQueues : KeepsQueues server
server-KeepsQueues = record {
  rpush_behind = λ k v s. rw (lookup-insert_self k _ s.lists) refl;
  rpush_other = λ k j v s ne. rw (lookup-insert_ne j k _ s.lists ne) refl;
  hincrby_apart = λ k j f n s ne. refl;
  hdel_apart = λ k j f s ne. refl;
  zrem_apart = λ k j name s ne. refl;
  publish_list = λ k j s. refl;
}
