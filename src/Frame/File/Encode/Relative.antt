-- ===== src/Frame/File/Encode/Relative.antt =====
-- File record bodies append the same bytes behind any buffer.
use rust_modbus.Prelude.{
  ℕ, suc, ◌-◌, String, ◌≡◌, refl, ap, List, [], ◌∷◌, ◌++◌, append_assoc, arith, length,
  length-append, ok, err, stuck, set-length-append,
}
use rust_modbus.Error.{Result}
use rust_modbus.Buffer.{Buffer, Writer, continue, len, lift, patch, for_each, ◌>>=◌, ◌>>◌}
use rust_modbus.Buffer.Relative.{IsRelative, for_each-IsRelative, relative_rules}
use rust_modbus.Frame.Pdu.Limits.{check_bounds}
use rust_modbus.Frame.Bytes.{u8_saturated, u32_saturated}
use rust_modbus.Frame.Pdu.Words.{push_registers-IsRelative}
use rust_modbus.Frame.File.{FileRecordRead, FileRecordReadResponse, FileRecordWrite}
use rust_modbus.Frame.File.Encode.{
  encode_read, encode_read_response, encode_write, body, encode_read_requests_into,
  encode_read_responses_into, encode_write_records_into,
}

-- What `body` does once the records have been written behind the placeholder.
close_body : String → ℕ → ℕ → ℕ → Writer (Unit {0})
close_body field lo hi start = do
  end ← len
  lift (check_bounds field (u32_saturated (end - start - 1)) lo hi)
  patch start (u8_saturated (u32_saturated (end - start - 1)))

continue-patch :
    (r : Result (Unit {0})) (v : ℕ) (out bytes : Buffer)
    → continue r (λ _. patch (length out) v) (out ++ 0 ∷ bytes) ≡ (
      (continue r (λ _. patch 0 v) (0 ∷ bytes)).0,
      out ++ (continue r (λ _. patch 0 v) (0 ∷ bytes)).1,
    )
unfolding patch
continue-patch (ok a) v out bytes =
    ap (λ (o : Buffer). (ok tt, o)) (set-length-append out 0 v bytes)
continue-patch (err e) v out bytes = refl
continue-patch stuck v out bytes = refl

close_body-append :
    (field : String) (lo hi : ℕ) (out bytes : Buffer)
    → close_body field lo hi (length out) (out ++ 0 ∷ bytes)
      ≡ ((close_body field lo hi 0 (0 ∷ bytes)).0, out ++ (close_body field lo hi 0 (0 ∷ bytes)).1)
unfolding close_body ◌>>=◌
close_body-append field lo hi out bytes =
    let n : length (out ++ 0 ∷ bytes) - length out - 1 ≡ suc (length bytes) - 0 - 1 =
      omega (arith, length-append {0} out (0 ∷ bytes)) in
    rw n (continue-patch _ _ out bytes)

module _ {ℓ} {A : Type ℓ} (encode : A → Writer (Unit {0}))
    (h : (a : A) → IsRelative (encode a)) where
  continue-close :
      (field : String) (lo hi : ℕ) (r : Result (Unit {0})) (out bytes : Buffer)
      → continue r (λ _. close_body field lo hi (length out)) (out ++ 0 ∷ bytes) ≡ (
        (continue r (λ _. close_body field lo hi 0) (0 ∷ bytes)).0,
        out ++ (continue r (λ _. close_body field lo hi 0) (0 ∷ bytes)).1,
      )
  continue-close field lo hi (ok a) out bytes = close_body-append field lo hi out bytes
  continue-close field lo hi (err e) out bytes = refl
  continue-close field lo hi stuck out bytes = refl

  pub body-IsRelative :
      (field : String) (lo hi : ℕ) (records : List A) → IsRelative (body field lo hi encode records)
  unfolding body close_body ◌>>=◌
  body-IsRelative field lo hi records = record {
    at = λ out.
        rw
          (
            (for_each-IsRelative encode h records).at (out ++ 0 ∷ []),
            (for_each-IsRelative encode h records).at (0 ∷ []),
            append_assoc out (0 ∷ []) (for_each encode records []).1,
          )
          (continue-close field lo hi (for_each encode records []).0 out
            (for_each encode records []).1);
  }

pub encode_read-IsRelative : (r : FileRecordRead) → IsRelative (encode_read r)
unfolding encode_read
encode_read-IsRelative r = search relative_rules

pub encode_read_response-IsRelative :
    (r : FileRecordReadResponse) → IsRelative (encode_read_response r)
unfolding encode_read_response
encode_read_response-IsRelative r = search (relative_rules, push_registers-IsRelative)

pub encode_write-IsRelative : (r : FileRecordWrite) → IsRelative (encode_write r)
unfolding encode_write
encode_write-IsRelative r = search (relative_rules, push_registers-IsRelative) depth 8

pub encode_read_requests_into-IsRelative :
    (records : List FileRecordRead) → IsRelative (encode_read_requests_into records)
unfolding encode_read_requests_into
encode_read_requests_into-IsRelative = body-IsRelative encode_read encode_read-IsRelative _ _ _

pub encode_read_responses_into-IsRelative :
    (records : List FileRecordReadResponse) → IsRelative (encode_read_responses_into records)
unfolding encode_read_responses_into
encode_read_responses_into-IsRelative =
    body-IsRelative encode_read_response encode_read_response-IsRelative _ _ _

pub encode_write_records_into-IsRelative :
    (records : List FileRecordWrite) → IsRelative (encode_write_records_into records)
unfolding encode_write_records_into
encode_write_records_into-IsRelative = body-IsRelative encode_write encode_write-IsRelative _ _ _
