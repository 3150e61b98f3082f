-- ===== src/Database/Tests/Refinement.antt =====
-- The theorems on the tables of apue.3e/db/db.c at a database with two chains.
use unix_system_programming.Prelude.{◌≡◌, refl, inl, [], ◌∷◌, ◌++◌, some, none, arith}
use unix_system_programming.Clib.{Text, codes, str_eq, has_char}
use unix_system_programming.Database.{Db, done, ◌>>=◌}
use unix_system_programming.Database.Numbers.{decimal, digits, pad}
use unix_system_programming.Database.Files.{ptr_sz, index_line, db_hash}
use unix_system_programming.Database.Records.{db_fetch}
use unix_system_programming.Database.Store.{db_store, stored}
use unix_system_programming.Database.Scan.{zero_pointers}
use unix_system_programming.Database.Entries.{Writable}
use unix_system_programming.Database.Chains.{lookup}
use unix_system_programming.Database.Fetch.{db_fetch-lookup}
use unix_system_programming.Database.Models.{Represents, new_entry, put}
use unix_system_programming.Database.Refines.{
  Storable, empty-Models, key-Leads, db_store-Represents, db_store-db_fetch,
}
use unix_system_programming.Database.Tests.{willing, alpha, db_zero}

unfoldable two_chains : Db
two_chains = record db_zero { idx = zero_pointers 3 ++ b'\n' ∷ []; nhash = 2; hashoff = ptr_sz }

two_chains-Represents : Represents two_chains (λ h. []) []
unfolding two_chains
two_chains-Represents = record {
  models = empty-Models 2 [];
  start = refl;
  some_chains = omega arith;
}

abbrev one : Text
one = codes "one"

entry-Writable : Writable (new_entry [] alpha one)
unfolding index_line decimal digits has_char
entry-Writable = record {
  full = ground arith;
  plain_key = refl;
  line_fits = refl;
  data_some = omega arith;
  data_fits = omega arith;
}

alpha-Storable : Storable two_chains (λ h. []) [] 9 alpha one
unfolding two_chains lookup zero_pointers pad decimal digits
alpha-Storable = record {
  writable = entry-Writable;
  full = ground arith;
  size = refl;
  reach = omega arith;
  new_key = refl;
  misfit = tt;
  chain_fuel = omega arith;
  free_fuel = omega arith;
}

db_store-db_fetch_example :
    (u : Db) × ((db_store willing 9 alpha one 1 >>= λ _. db_fetch willing 9 alpha) two_chains
      ≡ done (some one) u)
unfolding str_eq
db_store-db_fetch_example =
    db_store-db_fetch willing (λ n. refl) 9 alpha one alpha 1 two_chains two_chains-Represents
      alpha-Storable (inl refl) (omega arith)

db_store-Represents_example :
    (u : Db) × (db_store willing 9 alpha one 1 two_chains ≡ done stored u)
    × Represents u (put (λ h. []) (db_hash two_chains alpha) ((alpha, one) ∷ [])) []
    × (u.nhash ≡ two_chains.nhash)
db_store-Represents_example =
    db_store-Represents willing (λ n. refl) 9 alpha one 1 two_chains two_chains-Represents
      alpha-Storable (inl refl)

db_fetch-lookup_example : (u : Db) × (db_fetch willing 9 alpha two_chains ≡ done none u)
unfolding lookup two_chains
db_fetch-lookup_example =
    db_fetch-lookup willing (λ n. refl) {floor = 22} (omega arith) 9 alpha two_chains []
      (key-Leads two_chains-Represents alpha) (omega arith)
