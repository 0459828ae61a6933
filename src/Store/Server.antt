-- ===== src/Store/Server.antt =====
-- The Valkey server that internal/store talks to: the commands that the program sends, as an
-- interface, with the documented behaviour that the proofs rely on. Sets and hashes are two families
-- of keys: the program gives each its own prefix and never uses one key for both.
use scm_metrics_exporter.Prelude.{
  String, ◌≡◌, Bool, true, false, ◌&&◌, ◌||◌, List, if◌then◌else◌, ◌==◌, string_eq, contains,
  is_empty,
}
use scm_metrics_exporter.Prelude.Int.{ℤ, pos, ◌+ℤ◌, ltb_ℤ}
use scm_metrics_exporter.Prelude.Assoc.{Map, get}

-- A time to live that deletes a key at once.
abbrev pub not_positive : ℤ → Bool
not_positive t = if ltb_ℤ (pos 0) t then false else true

pub record Redis : Type 1 where
  pub Db : Type 0
  -- SADD key member: whether the member is new.
  pub sadd : String → String → Db → Bool × Db
  -- EXPIRE key seconds
  pub expire : String → ℤ → Db → Db
  -- HINCRBY and HINCRBYFLOAT key field increment
  pub hincrby : String → String → ℤ → Db → Db
  pub smembers : String → Db → List String
  pub hgetall : String → Db → Map String ℤ
  -- The time to live of a set runs out.
  pub lapse : String → Db → Db

module _ (r : Redis) where
  open r use {Db, sadd, expire, hincrby, smembers, hgetall, lapse}

  abbrev pub is_member : String → String → Db → Bool
  is_member k x d = contains (smembers k d) x

  abbrev pub hget : String → String → Db → ℤ
  hget k f d = get (pos 0) f (hgetall k d)

  abbrev pub hash_exists : String → Db → Bool
  hash_exists k d = if is_empty (hgetall k d) then false else true

  pub record IsRedis : Type 0 where
    pub sadd_reply :
        (k x : String) (d : Db) → (sadd k x d).0 ≡ (if is_member k x d then false else true)
    pub member_sadd :
        (k x j y : String) (d : Db)
        → is_member j y (sadd k x d).1 ≡ ((k == j && x == y) || is_member j y d)
    pub hash_sadd : (k x j : String) (d : Db) → hgetall j (sadd k x d).1 ≡ hgetall j d
    -- A time to live that is not positive deletes the set.
    pub member_expire :
        (k : String) (t : ℤ) (j y : String) (d : Db)
        → is_member j y (expire k t d)
          ≡ (if k == j && not_positive t then false else is_member j y d)
    pub hash_expire :
        (k : String) (t : ℤ) (j : String) (d : Db) → hgetall j (expire k t d) ≡ hgetall j d
    pub member_hincrby :
        (k f : String) (n : ℤ) (j y : String) (d : Db)
        → is_member j y (hincrby k f n d) ≡ is_member j y d
    pub hget_hincrby :
        (k f : String) (n : ℤ) (j g : String) (d : Db)
        → hget j g (hincrby k f n d) ≡ (if k == j && f == g then hget j g d +ℤ n else hget j g d)
    pub exists_hincrby :
        (k f : String) (n : ℤ) (j : String) (d : Db)
        → hash_exists j (hincrby k f n d) ≡ (k == j || hash_exists j d)
    pub member_lapse :
        (k j y : String) (d : Db)
        → is_member j y (lapse k d) ≡ (if k == j then false else is_member j y d)
    pub hash_lapse : (k j : String) (d : Db) → hgetall j (lapse k d) ≡ hgetall j d
