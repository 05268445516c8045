-- ===== src/Frame/File/Encode/Body.antt =====
-- The counted body of file records: the length byte and the bytes of the records.
use rust_modbus.Prelude.{ℕ, ◌≤◌, ◌<◌, String, ◌≡◌, List, [], ◌∷◌, arith, length, All, ok}
use rust_modbus.Buffer.{Writer, for_each, ◌>>=◌, patch}
use rust_modbus.Parse.Stream.{Parser}
use rust_modbus.Parse.Region.{IsItem, all_bytes, for_each-writes, for_each-checks}
use rust_modbus.Frame.Pdu.Limits.{check_bounds}
use rust_modbus.Frame.File.Encode.{body}

module _ {A : Type 0} {parse : Parser A} {encode : A → Writer (Unit {0})} {bytes : A → List ℕ}
    {Fits IsTyped : A → Type 0} (item : IsItem parse encode bytes Fits IsTyped) where
  pub body-writes :
      (field : String) (lo hi : ℕ) (records : List A)
      → All Fits records
      → lo ≤ length (all_bytes bytes records)
      → length (all_bytes bytes records) ≤ hi
      → hi < 256
      → body field lo hi encode records []
        ≡ (ok tt, length (all_bytes bytes records) ∷ all_bytes bytes records)
  unfolding body check_bounds patch ◌>>=◌
  body-writes field lo hi records h l u b =
      rw (for_each-writes item records (0 ∷ []) h) (ground arith)

  pub body-checks :
      (field : String) (lo hi : ℕ) (records : List A)
      → hi < 256
      → (body field lo hi encode records []).0 ≡ ok tt
      → All Fits records
        × (lo ≤ length (all_bytes bytes records))
        × (length (all_bytes bytes records) ≤ hi)
  unfolding body check_bounds patch ◌>>=◌
  body-checks field lo hi records b h =
      let fits = for_each-checks item records (0 ∷ []) (first h) in
      let wrote = for_each-writes item records (0 ∷ []) fits in (fits, ground arith, ground arith)
    where
      first :
          (body field lo hi encode records []).0 ≡ ok tt
          → (for_each encode records (0 ∷ [])).0 ≡ ok tt
      first h = ground arith
