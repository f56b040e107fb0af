-- ===== src/Config/Interface/Client.antt =====
-- A client that stores a setting and reads it back, over any filling of lib/tconfig.h.
use wrensong_http_server.Prelude.{◌≡◌, refl, ◌∙◌, true, false, ◌&&◌}
use wrensong_http_server.Prelude.Int.{ℤ}
use wrensong_http_server.Cstring.{Chars, same, same_iff, atoi}
use wrensong_http_server.Exec.{done}
use wrensong_http_server.Config.Interface.{Interface}

module _ (i : Interface) where
  -- The table after a setting has been stored
  pub record Stored (t : i.T) (name key value : Chars) (n : ℤ) : Type 0 where
    pub after : i.T
    pub stored : i.add t name key value ≡ done after
    pub made : i.Made after
    pub read_back : (old : ℤ) → i.int_of after name key old ≡ done (true, n)
    pub present : i.check after name key ≡ true
    pub others_kept :
        (m k : Chars)
        → (same name m && same key k) ≡ false
        → i.value_of after m k ≡ i.value_of t m k

  -- Whatever implements the header, a client that adds an entry whose value `atoi` can convert reads
  -- that number back, finds the entry present, can add further entries, and finds every other entry as
  -- it was.
  pub add-int_of :
      (t : i.T) (name key value : Chars) (n : ℤ)
      → i.Made t
      → atoi value ≡ done n
      → Stored t name key value n
  add-int_of t name key value n m h =
      let (t', made, valid, looks) = i.added t name key value m in
      let here = looks name key ∙ rw ((same_iff name name).1 refl, (same_iff key key).1 refl) in
      record {
        after = t';
        stored = made;
        made = valid;
        read_back = λ old. i.int_read t' name key old here h;
        present = i.checked t' name key here;
        others_kept = λ m k d. looks m k ∙ rw d;
      }
