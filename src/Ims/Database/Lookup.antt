-- ===== src/Ims/Database/Lookup.antt =====
-- What is stored is found again.
use bootrom_tools.Base.{
  ℕ, ◌≤◌, ◌≡◌, ◌∙◌, refl, sym, ap, true, false, List, Option, none, some, arith, length, ◌==◌, ◌∷◌,
  take-append_length, Bool-cases, inl, inr,
}
use bootrom_tools.Ims.{Crypto}
use bootrom_tools.Ims.Database.{
  Row, Sqlite, Octet, db_get_blob, bound_uid, bound_row, db_add_keyset, db_get_keyset,
  db_ep_uid_exists,
}

-- SQLite without a failing call but for the insertion itself: a row that was stored is found by its
-- endpoint id where there was none, and the finalizer gives 0 only behind `SQLITE_DONE`.
pub record IsStore (sqlite : Sqlite) : Type 0 where
  pub binds : (db : sqlite.Db) (i : ℕ) (bytes : List ℕ) → sqlite.bind db i bytes ≡ 0
  pub selects : (db : sqlite.Db) (ep_uid : List ℕ) → sqlite.prepare_select db ep_uid ≡ 0
  pub closes : (db : sqlite.Db) (ep_uid : List ℕ) → sqlite.finalize_select db ep_uid ≡ 0
  pub stored : (status : ℕ) → sqlite.finalize_insert status ≡ 0 → status ≡ 101
  pub finds :
      (db : sqlite.Db) (row : Row) (ep_uid : List ℕ)
      → row.ep_uid ≡ some ep_uid
      → sqlite.step_select db ep_uid ≡ none
      → (sqlite.step_insert db row).0 ≡ 101
      → sqlite.step_select (sqlite.step_insert db row).1 ep_uid ≡ some row

module _ (crypto : Crypto) (sqlite : Sqlite) (store : IsStore sqlite) where
  exists-some :
      (db : sqlite.Db) (ep_uid : List ℕ) (row : Row)
      → sqlite.step_select db (crypto.to_hex ep_uid) ≡ some row
      → db_ep_uid_exists crypto sqlite db ep_uid ≡ true
  unfolding db_ep_uid_exists db_get_keyset
  exists-some db ep_uid row h =
      ground
        (arith, h, store.selects db (crypto.to_hex ep_uid), store.closes db (crypto.to_hex ep_uid))

  unused_by :
      (db : sqlite.Db) (ep_uid : List ℕ) (r : Option Row)
      → sqlite.step_select db (crypto.to_hex ep_uid) ≡ r
      → db_ep_uid_exists crypto sqlite db ep_uid ≡ false
      → r ≡ none
  unused_by db ep_uid none e h = refl
  unused_by db ep_uid (some row) e h =
      let found = exists-some db ep_uid row e in absurd (ground (arith, found, h))

  full_row :
      (db : sqlite.Db) (ep_uid_hex epvk esvk erpk_mod : List ℕ)
      → bound_row crypto sqlite db ep_uid_hex epvk esvk erpk_mod ≡ (record {
        ep_uid = some ep_uid_hex;
        epvk = some epvk;
        esvk = some esvk;
        erpk_mod = some erpk_mod;
      })
  unfolding bound_row
  full_row db ep_uid_hex epvk esvk erpk_mod = ground (
    arith,
    store.binds db 1 ep_uid_hex,
    store.binds db 2 epvk,
    store.binds db 3 esvk,
    store.binds db 4 erpk_mod,
  )

  db_get_blob_fits :
      (bytes : List ℕ) (octet : Octet)
      → length bytes ≤ octet.max
      → db_get_blob (some bytes) octet ≡ record octet { val = bytes }
  unfolding db_get_blob
  db_get_blob_fits bytes octet h = ground (arith, h)

  module _ (db : sqlite.Db) (ep_uid epvk esvk erpk_mod : List ℕ) where
    -- An insertion that reports success has taken its step.
    add-stored :
        (db_add_keyset crypto sqlite ep_uid epvk esvk erpk_mod db).0 ≡ 0
        → (let inserted =
              sqlite.step_insert db
                (bound_row crypto sqlite db (bound_uid crypto sqlite ep_uid) epvk esvk erpk_mod) in
            (inserted.0 ≡ 101)
            × ((db_add_keyset crypto sqlite ep_uid epvk esvk erpk_mod db).1 ≡ inserted.1))
    unfolding db_add_keyset
    add-stored h = elim (Bool-cases (sqlite.prepare_insert db == 0)) [
      | inl ok ↦ (store.stored _ (ground (arith, h, ok)), ground (arith, ok))
      | inr bad ↦ absurd (ground (arith, h, bad))
    ]

    get-row :
        (db' : sqlite.Db) (row : Row) (o1 o2 o3 : Octet)
        → sqlite.step_select db' (crypto.to_hex ep_uid) ≡ some row
        → db_get_keyset crypto sqlite db' ep_uid (some o1) (some o2) (some o3) ≡ (
          0,
          (
            some (db_get_blob row.epvk o1),
            (some (db_get_blob row.esvk o2), some (db_get_blob row.erpk_mod o3)),
          ),
        )
    unfolding db_get_keyset
    get-row db' row o1 o2 o3 h = ground (
      arith,
      h,
      store.selects db' (crypto.to_hex ep_uid),
      store.closes db' (crypto.to_hex ep_uid),
    )

    -- With a database whose only failing call is an insertion, and for an endpoint id of 16
    -- hexadecimal digits: keys that `db_add_keyset` stores with success under an id that was not in
    -- use are what `db_get_keyset` gives for it, into octets with room for them.
    pub db_get_keyset-db_add_keyset :
        (o1 o2 o3 : Octet)
        → length (crypto.to_hex ep_uid) ≡ 16
        → db_ep_uid_exists crypto sqlite db ep_uid ≡ false
        → (db_add_keyset crypto sqlite ep_uid epvk esvk erpk_mod db).0 ≡ 0
        → length epvk ≤ o1.max
        → length esvk ≤ o2.max
        → length erpk_mod ≤ o3.max
        → db_get_keyset crypto sqlite
            (db_add_keyset crypto sqlite ep_uid epvk esvk erpk_mod db).1
            ep_uid
            (some o1)
            (some o2)
            (some o3)
          ≡ (
            0,
            (
              some (record o1 { val = epvk }),
              (some (record o2 { val = esvk }), some (record o3 { val = erpk_mod })),
            ),
          )
    db_get_keyset-db_add_keyset o1 o2 o3 digits unused added fits1 fits2 fits3 =
        let (done, same_db) = add-stored added in
        let hex = crypto.to_hex ep_uid in
        let whole : bound_uid crypto sqlite ep_uid ≡ hex =
          rw (sym digits) (take-append_length hex (0 ∷ crypto.behind_hex)) in
        let bound =
          bound_row crypto sqlite db (bound_uid crypto sqlite ep_uid) epvk esvk erpk_mod in
        let full : Row = record {
          ep_uid = some hex;
          epvk = some epvk;
          esvk = some esvk;
          erpk_mod = some erpk_mod;
        } in
        let row : bound ≡ full = rw whole (full_row db hex epvk esvk erpk_mod) in
        let found =
          store.finds db
            (bound_row crypto sqlite db (bound_uid crypto sqlite ep_uid) epvk esvk erpk_mod) hex
            (ap (λ (r : Row). r.ep_uid) row) (unused_by db ep_uid _ refl unused) done
          ∙ ap some row in
        ap (λ d. db_get_keyset crypto sqlite d ep_uid (some o1) (some o2) (some o3)) same_db
        ∙ (get-row _ _ o1 o2 o3 found
            ∙ rw
                (
                  db_get_blob_fits epvk o1 fits1,
                  db_get_blob_fits esvk o2 fits2,
                  db_get_blob_fits erpk_mod o3 fits3,
                )
                refl)
