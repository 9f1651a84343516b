-- ===== src/AuditLogs/Cursors.antt =====
-- The cursors that one page gives and the next reads
-- (apps/api/src/audit-logs/audit-logs.service.ts).
use unified_inbox.Prelude.{◌≡◌, refl, false, some}
use unified_inbox.Prelude.Text.{trim, is_empty}
use unified_inbox.Prelude.Result.{ok}
use unified_inbox.Runtime.{Runtime}
use unified_inbox.Json.{prop}
use unified_inbox.Auth.Base.{filled}
use unified_inbox.AuditLogs.{Codec, AuditRow, cursor_json, encode_cursor, decode_cursor}

-- What the code relies on for the cursor of a row: each reader takes what its writer gave, and a text
-- in base64url is not empty if the text is not.
pub record CodecLaws (codec : Codec) (rt : Runtime) (r : AuditRow) : Type 0 where
  pub parse-stringify :
      rt.parse_json (codec.stringify (cursor_json codec r.id r.created_at))
      ≡ some (cursor_json codec r.id r.created_at)
  pub from-to_base64url :
      codec.from_base64url
        (codec.to_base64url (codec.stringify (cursor_json codec r.id r.created_at)))
      ≡ codec.stringify (cursor_json codec r.id r.created_at)
  pub parse-to_iso : codec.parse_date (codec.to_iso r.created_at) ≡ some r.created_at
  pub filled_cursor :
      filled (some (codec.to_base64url (codec.stringify (cursor_json codec r.id r.created_at))))
      ≡ some (codec.to_base64url (codec.stringify (cursor_json codec r.id r.created_at)))
  pub filled_id : is_empty (trim r.id) ≡ false

module _ (codec : Codec) (rt : Runtime) where
  -- A cursor is read as the entry that it was made for.
  pub decode-encode_cursor :
      (r : AuditRow)
      → CodecLaws codec rt r
      → decode_cursor codec rt (encode_cursor codec r)
        ≡ ok (record { id = r.id; created_at = r.created_at })
  unfolding encode_cursor decode_cursor prop
  decode-encode_cursor r laws =
      rw (laws.from-to_base64url, laws.parse-stringify, laws.filled_id, laws.parse-to_iso) refl

  pub encode_cursor-filled :
      (r : AuditRow)
      → CodecLaws codec rt r
      → filled (some (encode_cursor codec r)) ≡ some (encode_cursor codec r)
  unfolding encode_cursor
  encode_cursor-filled r laws = laws.filled_cursor
