-- ===== src/Json.antt =====
-- Python values that a job carries as arguments, and the JSON documents that `json.dumps(...,
-- sort_keys=True)` and `json.loads` turn them into and back. A JSON text is represented by the
-- document that it denotes, with the order of its keys. Numbers are the integers.
pub mod RoundTrip
use Prim.Native.Nat.{Ordering}
use Prim.Native.String.{compare}
use spinach.Prelude.{ℕ, Bool, true, false, String, Option, none, some, if◌then◌else◌, str_eq}

mutual
  pub data Value : Type 0 where
    null : Value
    bool : Bool → Value
    num : ℕ → Value
    -- -(n + 1)
    neg : ℕ → Value
    str : String → Value
    list : Items → Value
    tuple : Items → Value
    dict : Fields → Value

  pub data Items : Type 0 where
    nil : Items
    cons : Value → Items → Items

  pub data Fields : Type 0 where
    end : Fields
    field : String → Value → Fields → Fields

mutual
  pub data Json : Type 0 where
    jnull : Json
    jbool : Bool → Json
    jnum : ℕ → Json
    jneg : ℕ → Json
    jstr : String → Json
    jarr : JsonItems → Json
    jobj : JsonFields → Json

  pub data JsonItems : Type 0 where
    jnil : JsonItems
    jcons : Json → JsonItems → JsonItems

  pub data JsonFields : Type 0 where
    jend : JsonFields
    jfield : String → Json → JsonFields → JsonFields

abbrev pub str_leb : String → String → Bool
str_leb s t = elim (compare s t) [ Ordering.gt ↦ false | _ ↦ true ]

-- `sort_keys=True`: insertion into sorted fields.
pub insert_field : String → Json → JsonFields → JsonFields
insert_field k v jend = jfield k v jend
insert_field k v (jfield l w r) =
    if str_leb k l then jfield k v (jfield l w r) else jfield l w (insert_field k v r)

-- `json.dumps`: a tuple becomes an array, and the keys of each object are sorted.
unfoldable mutual
  unfolding insert_field

  pub dumps : Value → Json
  dumps null = jnull
  dumps (bool b) = jbool b
  dumps (num n) = jnum n
  dumps (neg n) = jneg n
  dumps (str s) = jstr s
  dumps (list xs) = jarr (dump_items xs)
  dumps (tuple xs) = jarr (dump_items xs)
  dumps (dict fs) = jobj (dump_fields fs)

  pub dump_items : Items → JsonItems
  dump_items nil = jnil
  dump_items (cons x xs) = jcons (dumps x) (dump_items xs)

  pub dump_fields : Fields → JsonFields
  dump_fields end = jend
  dump_fields (field k v fs) = insert_field k (dumps v) (dump_fields fs)

-- `json.loads`: an array becomes a list.
unfoldable mutual
  pub loads : Json → Value
  loads jnull = null
  loads (jbool b) = bool b
  loads (jnum n) = num n
  loads (jneg n) = neg n
  loads (jstr s) = str s
  loads (jarr xs) = list (load_items xs)
  loads (jobj fs) = dict (load_fields fs)

  pub load_items : JsonItems → Items
  load_items jnil = nil
  load_items (jcons x xs) = cons (loads x) (load_items xs)

  pub load_fields : JsonFields → Fields
  load_fields jend = end
  load_fields (jfield k v fs) = field k (loads v) (load_fields fs)

-- `d[k]`, of a loaded object.
unfoldable pub get : String → Fields → Option Value
get k end = none
get k (field l v fs) = if str_eq l k then some v else get k fs
