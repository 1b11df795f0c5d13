-- ===== src/Store/Meta.antt =====
-- apps/daemon/store/store.go: the `meta` table of persisted keys.
use zchat.Prelude.{String, none, some}
use zchat.Prelude.Exec.{ok}
use zchat.Prelude.Rows.{find, upsert}
use zchat.Store.Db.{Db, MetaRow, Sql, exec, query}

abbrev pub meta_key : MetaRow → String
meta_key r = r.key

-- Meta
unfoldable pub meta : String → Sql String
meta key =
    query "read meta" λ db. ok (elim (find meta_key key db.meta) [ none ↦ "" | some r ↦ r.value ])

unfoldable pub set_meta_rows : String → String → Db → Db
set_meta_rows key value db = record db {
  meta =
      upsert meta_key (record { key = key; value = value }) (λ r. record r { value = value })
        db.meta;
}

-- SetMeta
unfoldable pub set_meta : String → String → Sql (Unit {0})
set_meta key value = exec "write meta" (set_meta_rows key value)
