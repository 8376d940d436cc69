-- ===== src/Ims/Database.antt =====
-- src/imsgen/db.c: the table of the public keys, by the endpoint id in hexadecimal digits. SQLite is
-- a record that the definitions take.
pub mod Lookup
use bootrom_tools.Base.{
  ℕ, zero, suc, Bool, true, false, ◌||◌, not, List, [], Option, none, some, leb, ◌==◌,
  if◌then◌else◌, length, take, ◌∷◌, ◌++◌,
}
use bootrom_tools.Ims.{Crypto}

abbrev pub sqlite_notfound : ℕ
sqlite_notfound = 12

-- A row of the table; a column that was not bound is NULL.
pub record Row : Type 0 where
  pub ep_uid : Option (List ℕ)
  pub epvk : Option (List ℕ)
  pub esvk : Option (List ℕ)
  pub erpk_mod : Option (List ℕ)

-- The statements that the code prepares, with the status of each call. `step_select` gives the row
-- behind `SQLITE_ROW`; the status of an insertion's step goes to its finalizer.
pub record Sqlite : Type 1 where
  pub Db : Type 0
  pub prepare_insert : Db → ℕ
  pub bind : Db → ℕ → List ℕ → ℕ
  pub step_insert : Db → Row → ℕ × Db
  pub finalize_insert : ℕ → ℕ
  pub prepare_select : Db → List ℕ → ℕ
  pub step_select : Db → List ℕ → Option Row
  pub finalize_select : Db → List ℕ → ℕ

-- `mcl_octet`: the room, and the bytes up to its length.
pub record Octet : Type 0 where
  pub max : ℕ
  pub val : List ℕ

-- The blob of a NULL has no bytes.
abbrev pub blob_of : Option (List ℕ) → List ℕ
blob_of none = []
blob_of (some bytes) = bytes

-- A blob that is too long leaves the octet as it was.
unfoldable pub db_get_blob : Option (List ℕ) → Octet → Octet
db_get_blob column octet =
    if leb (length (blob_of column)) octet.max then record octet { val = blob_of column } else octet

-- An octet that is asked for.
abbrev pub fetch : Option (List ℕ) → Option Octet → Option Octet
fetch column none = none
fetch column (some octet) = some (db_get_blob column octet)

module _ (crypto : Crypto) (sqlite : Sqlite) where
  -- The text that is bound: 16 characters from the start of the buffer, also where there are fewer
  -- digits, or more. An id of more than 15 bytes overruns the buffer.
  abbrev pub bound_uid : List ℕ → List ℕ
  bound_uid ep_uid = take 16 (crypto.to_hex ep_uid ++ (0 ∷ crypto.behind_hex))

  -- The chain of bindings: the first that fails leaves its column and those behind it NULL.
  unfoldable pub bound_row : sqlite.Db → List ℕ → List ℕ → List ℕ → List ℕ → Row
  bound_row db ep_uid_hex epvk esvk erpk_mod =
      let bind1 = sqlite.bind db 1 ep_uid_hex == 0 in
      let bind2 = sqlite.bind db 2 epvk == 0 in
      let bind3 = sqlite.bind db 3 esvk == 0 in
      let bind4 = sqlite.bind db 4 erpk_mod == 0 in
      if not bind1
      then (record { ep_uid = none; epvk = none; esvk = none; erpk_mod = none })
      else if not bind2
      then (record { ep_uid = some ep_uid_hex; epvk = none; esvk = none; erpk_mod = none })
      else if not bind3
      then (record { ep_uid = some ep_uid_hex; epvk = some epvk; esvk = none; erpk_mod = none })
      else if not bind4
      then (record {
        ep_uid = some ep_uid_hex;
        epvk = some epvk;
        esvk = some esvk;
        erpk_mod = none;
      })
      else (record {
        ep_uid = some ep_uid_hex;
        epvk = some epvk;
        esvk = some esvk;
        erpk_mod = some erpk_mod;
      })

  -- The step is taken whatever the bindings gave, and the status is the finalizer's.
  unfoldable pub db_add_keyset : List ℕ → List ℕ → List ℕ → List ℕ → sqlite.Db → ℕ × sqlite.Db
  db_add_keyset ep_uid epvk esvk erpk_mod db =
      let status = sqlite.prepare_insert db in
      let (step, db') =
        sqlite.step_insert db (bound_row db (bound_uid ep_uid) epvk esvk erpk_mod) in
      if not (status == 0) then (status, db) else (sqlite.finalize_insert step, db')

  -- The status, and the octets that were asked for.
  unfoldable pub db_get_keyset :
      sqlite.Db
      → List ℕ
      → Option Octet
      → Option Octet
      → Option Octet
      → ℕ × (Option Octet × (Option Octet × Option Octet))
  db_get_keyset db ep_uid epvk esvk erpk_mod =
      let ep_uid_hex = crypto.to_hex ep_uid in
      if not (sqlite.prepare_select db ep_uid_hex == 0)
      then (sqlite_notfound, (epvk, (esvk, erpk_mod)))
      else (elim (sqlite.step_select db ep_uid_hex) [
        | none ↦ (sqlite_notfound, (epvk, (esvk, erpk_mod)))
        | some row ↦ (
          sqlite.finalize_select db ep_uid_hex,
          (fetch row.epvk epvk, (fetch row.esvk esvk, fetch row.erpk_mod erpk_mod)),
        )
      ])

  unfoldable pub db_ep_uid_exists : sqlite.Db → List ℕ → Bool
  db_ep_uid_exists db ep_uid = not ((db_get_keyset db ep_uid none none none).0 == sqlite_notfound)
