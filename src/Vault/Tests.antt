-- ===== src/Vault/Tests.antt =====
-- A small vault on a platform with transparent ciphers, and the theorems there.
use go_webssh.Base.{◌≡◌, refl, ◌≢◌, [], ◌∷◌, ◌++◌, ok}
use go_webssh.Text.{Text, codes, text_eq}
use go_webssh.Dict.{IsMap, lookup, insert, erase}
use go_webssh.Auth.Primitives.{Bytes}
use go_webssh.Vault.Primitives.{Database}
use go_webssh.Vault.{
  is_v2, encrypt, encrypt_v2, decrypt, open_record, get, completed, write, put_for_user, delete,
  summary_of, move_record, collect, put_all, migrate,
}
use go_webssh.Vault.Records.{get-put_for_user}
use go_webssh.Vault.Migration.{get-migrate}
use go_webssh.Vault.Sample.{
  put_text, get_text, encoded, read-encoded, sample_library, sample-IsJson, sample_ciphers,
  sample_random, sample_lengths, sample_credential, saved_credential, empty_database,
}

-- The record of the saved credential, as an earlier version sealed it and as this one does.
abbrev old_record : Bytes
old_record = 0 ∷ 0 ∷ encoded saved_credential

abbrev new_record : Bytes
new_record = codes "GWS2" ++ old_record

abbrev saved_database : Database
saved_database = record {
  credentials = (codes "i", new_record) ∷ [];
  summaries = (codes "i", codes "i") ∷ [];
}

abbrev old_database : Database
old_database = record {
  credentials = (codes "i", old_record) ∷ (codes "j", new_record) ∷ [];
  summaries = [];
}

abbrev migrated_database : Database
migrated_database = record {
  credentials = (codes "i", new_record) ∷ (codes "j", new_record) ∷ [];
  summaries = [];
}

sealed_runs :
    encrypt_v2 sample_library sample_random [] (encoded saved_credential) (codes "i")
    ≡ ok new_record
unfolding encrypt_v2 encrypt put_text
sealed_runs = refl

put_runs :
    put_for_user sample_library 5 sample_random
      (codes "i")
      []
      (codes "o")
      sample_credential
      empty_database
    ≡ (ok saved_credential, saved_database)
unfolding put_for_user get open_record completed encrypt_v2 encrypt write summary_of lookup insert
    put_text
put_runs = refl

get-put_for_user_example :
    (get sample_library [] (codes "i") saved_database ≡ ok saved_credential)
    × ((id : Text)
        → codes "i" ≢ id
        → get sample_library [] id saved_database ≡ get sample_library [] id empty_database)
get-put_for_user_example =
    get-put_for_user sample_library sample_random sample_ciphers sample_lengths sample-IsJson 5
      (codes "i") [] (codes "o") sample_credential saved_credential empty_database saved_database
      put_runs

delete_runs : delete (codes "i") saved_database ≡ (ok tt, empty_database)
unfolding delete erase text_eq
delete_runs = refl

migrate_runs :
    migrate sample_library sample_random [] [] (codes "p") old_database
    ≡ (ok (1, 0), migrated_database)
unfolding migrate collect move_record is_v2 decrypt encrypt_v2 encrypt put_all insert text_eq
    put_text get_text
migrate_runs = refl

old_unique : IsMap old_database.credentials
unfolding lookup text_eq
old_unique = (refl, (refl, tt))

get-migrate_example : get sample_library [] (codes "i") migrated_database ≡ ok saved_credential
unfolding lookup text_eq is_v2 put_text decrypt
get-migrate_example =
    get-migrate sample_library sample_random sample_ciphers sample_lengths [] [] (codes "p")
      old_database migrated_database 1 0 (codes "i") old_record (encoded saved_credential)
      saved_credential migrate_runs old_unique refl refl refl (read-encoded saved_credential)
