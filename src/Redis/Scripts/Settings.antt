-- ===== src/Redis/Scripts/Settings.antt =====
-- What set_concurrency_keys.lua of spinach/brokers/redis_scripts leaves: which tasks have a limit, and
-- their counts.
pub mod Left
use spinach.Prelude.{
  ℤ, pos, ◌≡◌, refl, sym, ap, ◌∙◌, ◌≢◌, ◌⊎◌, inl, inr, Bool, true, false, ◌&&◌, String, List, [],
  ◌∷◌, ◌++◌, map, Option, none, some, Bool-cases, Option-cases, arith, str_eq, eq_iff, All,
  if◌then◌else◌,
}
use spinach.Outcome.{ok}
use spinach.Json.{Json}
use spinach.Redis.Commands.{Redis, KeepsCounts}
use spinach.Redis.Scripts.{Script, nothing, text, number, is_limited}
use spinach.Redis.Scripts.Periodic.{
  contains, forget, limited_name, set_one, set_all, set_concurrency_keys,
}

-- What the script reads of a task.
pub record Setting : Type 0 where
  pub doc : Json
  pub name : String
  pub max_concurrency : ℤ

abbrev pub limits : String → Setting → Bool
limits name r = is_limited (some r.max_concurrency) && str_eq r.name name

-- The limit of a task: that of the last setting with its name that has one.
unfoldable pub limit_of : String → List Setting → Option ℤ
limit_of name [] = none
limit_of name (r ∷ rows) =
    let later = limit_of name rows in
    elim later [ some m ↦ some m | none ↦ if limits name r then some r.max_concurrency else none ]

abbrev pub or_else : Option ℤ → Option ℤ → Option ℤ
or_else (some m) old = some m
or_else none old = old

-- The names that the script notes.
abbrev pub names_of : Setting → List String
names_of r = if is_limited (some r.max_concurrency) then r.name ∷ [] else []

pub names_in : List Setting → List String
names_in [] = []
names_in (r ∷ rows) = names_of r ++ names_in rows

pub is_name : (f name : String) → str_eq f name ≡ true → f ≡ name
is_name f name e = ground (arith, e, eq_iff f name)

-- A count that is not there starts at zero.
abbrev pub started : Option ℤ → ℤ
started none = pos 0
started (some c) = c

-- The count of a task that may have a limit.
abbrev pub count_with : Option ℤ → Option ℤ → Option ℤ → Option ℤ
count_with (some m) old other = some (started old)
count_with none old other = other

module _ (redis : Redis) where
  open redis use {Store, decode, hget_number, hset_number, hdel, hkeys}

  -- What Redis documents of a hash of numbers.
  pub record KeepsFields : Type 0 where
    pub hset_same :
        (k f : String) (n : ℤ) (s : Store) → hget_number k f (hset_number k f n s) ≡ some n
    pub hset_other_key :
        (k f j g : String) (n : ℤ) (s : Store)
        → k ≢ j
        → hget_number k f (hset_number j g n s) ≡ hget_number k f s
    pub hset_other_field :
        (k f g : String) (n : ℤ) (s : Store)
        → f ≢ g
        → hget_number k f (hset_number k g n s) ≡ hget_number k f s
    pub hdel_same : (k f : String) (s : Store) → hget_number k f (hdel k f s) ≡ none
    pub hdel_other_field :
        (k f g : String) (s : Store) → f ≢ g → hget_number k f (hdel k g s) ≡ hget_number k f s
    pub hkeys_has :
        (k f : String) (n : ℤ) (s : Store)
        → hget_number k f s ≡ some n
        → contains (hkeys k s) f ≡ true

  -- The text is that of the setting.
  abbrev pub Reads : Setting → Type 0
  Reads r =
      (number "max_concurrency" (decode r.doc) ≡ ok r.max_concurrency)
      × (text "name" (decode r.doc) ≡ ok r.name)

module _ (redis : Redis) (laws : KeepsFields redis) (counts : KeepsCounts redis)
    (max_key cur_key : String) (apart : max_key ≢ cur_key) where
  open redis use {Store, decode, hget_number, hset_number, hdel, hkeys}

  -- The limits and the counts after the settings were made.
  abbrev pub Sets : List Setting → Store → Store → Type 0
  Sets rows s t =
      (name : String)
      → (hget_number max_key name t ≡ or_else (limit_of name rows) (hget_number max_key name s))
        × (hget_number cur_key name t
            ≡ count_with (limit_of name rows) (hget_number cur_key name s)
                (hget_number cur_key name s))

  -- The counts are under another key than the limits.
  hset-other :
      (r : Setting) (name : String) (s : Store)
      → hget_number cur_key name (hset_number max_key r.name r.max_concurrency s)
        ≡ hget_number cur_key name s
  hset-other r name s =
      laws.hset_other_key cur_key name max_key r.name r.max_concurrency s (λ x. apart (sym x))

  new-Sets :
      (r : Setting) (s : Store)
      → is_limited (some r.max_concurrency) ≡ true
      → hget_number cur_key r.name s ≡ none
      → Sets
          (r ∷ [])
          s
          (hset_number cur_key r.name (pos 0) (hset_number max_key r.name r.max_concurrency s))
  unfolding limit_of
  new-Sets r s l e name = elim (Bool-cases (str_eq r.name name)) [
    | inl b ↦
        let same = is_name r.name name b in
        rw (l, b, sym same)
          (
            laws.hset_other_key max_key r.name cur_key r.name (pos 0) _ apart
                ∙ laws.hset_same max_key r.name r.max_concurrency s,
            rw (e) (laws.hset_same cur_key r.name (pos 0) _),
          )
    | inr b ↦
        let differ : name ≢ r.name = λ x. ground (arith, b, x, eq_iff r.name name) in
        rw (l, b)
          (
            laws.hset_other_key max_key name cur_key r.name (pos 0) _ apart
                ∙ laws.hset_other_field max_key name r.name r.max_concurrency s differ,
            laws.hset_other_field cur_key name r.name (pos 0) _ differ ∙ hset-other r name s,
          )
  ]

  old-Sets :
      (r : Setting) (c : ℤ) (s : Store)
      → is_limited (some r.max_concurrency) ≡ true
      → hget_number cur_key r.name s ≡ some c
      → Sets (r ∷ []) s (hset_number max_key r.name r.max_concurrency s)
  unfolding limit_of
  old-Sets r c s l e name = elim (Bool-cases (str_eq r.name name)) [
    | inl b ↦
        let same = is_name r.name name b in
        rw (l, b, sym same)
          (laws.hset_same max_key r.name r.max_concurrency s, rw (e) (hset-other r r.name s ∙ e))
    | inr b ↦
        let differ : name ≢ r.name = λ x. ground (arith, b, x, eq_iff r.name name) in
        rw (l, b)
          (
            laws.hset_other_field max_key name r.name r.max_concurrency s differ,
            hset-other r name s,
          )
  ]

  started-count_with : (limit old : Option ℤ) → started (count_with limit old old) ≡ started old
  started-count_with none old = refl
  started-count_with (some m) old = refl

  unlimited-Sets :
      (r : Setting) (s : Store) → is_limited (some r.max_concurrency) ≡ false → Sets (r ∷ []) s s
  unfolding limit_of
  unlimited-Sets r s l name = rw (l) (refl, refl)

  no-Sets : (s : Store) → Sets [] s s
  unfolding limit_of
  no-Sets s name = (refl, refl)

  more-Sets :
      (r : Setting) (rows : List Setting) (s t u : Store)
      → Sets (r ∷ []) s t
      → Sets rows t u
      → Sets (r ∷ rows) s u
  unfolding limit_of
  more-Sets r rows s t u one others name =
      let (max_one, cur_one) = one name in
      let (max_others, cur_others) = others name in
      elim (Option-cases (limit_of name rows)) [
        | inl e ↦ rw (max_others, cur_others, e) (max_one, cur_one)
        | inr (m, e) ↦
            rw (max_others, cur_others, e)
              (
                refl,
                ap (λ c. some (started c)) cur_one
                    ∙ ap some
                        (started-count_with (limit_of name (r ∷ [])) (hget_number cur_key name s)),
              )
      ]

  -- A setting succeeds, and gives the names of the tasks that it limits.
  abbrev pub Settles : List Setting → List String → Store → Script redis (List String) → Type 0
  Settles rows names s m = ((m s).0 ≡ ok names) × Sets rows s (m s).1

  set_one-Sets :
      (r : Setting) (s : Store)
      → Reads redis r
      → Settles (r ∷ []) (names_of r) s (set_one redis max_key cur_key r.doc)
  unfolding set_one
  set_one-Sets r s (max_read, name_read) = elim (Bool-cases (is_limited (some r.max_concurrency))) [
    | inl l ↦ elim (Option-cases (hget_number cur_key r.name s)) [
      | inl e ↦
          let set = new-Sets r s l e in
          rw (max_read, name_read, l, hset-other r r.name s ∙ e) (refl, set)
      | inr (c, e) ↦
          let set = old-Sets r c s l e in
          rw (max_read, name_read, l, hset-other r r.name s ∙ e) (refl, set)
    ]
    | inr l ↦ let set = unlimited-Sets r s l in rw (max_read, name_read, l) (refl, set)
  ]

  pub set_all-Sets :
      (rows : List Setting) (s : Store)
      → All (Reads redis) rows
      → Settles rows (names_in rows) s (set_all redis max_key cur_key (map (λ r. r.doc) rows))
  unfolding set_all names_in
  set_all-Sets [] s h = (refl, no-Sets s)
  set_all-Sets (r ∷ rows) s (h, hs) =
      let (one, set) = set_one-Sets r s h in
      let t = (set_one redis max_key cur_key r.doc s).1 in
      let (others, sets) = set_all-Sets rows t hs in
      rw (one, others) (refl, more-Sets r rows s t _ set sets)
