-- ===== src/Gate/HttpSession/Response.antt =====
-- circe-gate/circe-gate/src/client_http_session.cpp: how `on_sync_request` completes a response. The
-- reason phrase of a status code is left out.
use poseidon_circe.Prelude.{◌/◌, ◌&&◌, not, true, false, if◌then◌else◌, is_empty, leb}
use poseidon_circe.Prelude.Bytes.{Bytes, codes}
use poseidon_circe.Protocol.Common.{OptionMap}
use poseidon_circe.Gate.HttpSession.{
  HttpLibrary, ResponseHeaders, ContentEncoding, identity, gzip, deflate, not_acceptable,
}

module _ (lib : HttpLibrary) where
  -- the fields that every response gets
  unfoldable pub fill_in : OptionMap → ResponseHeaders → ResponseHeaders
  unfolding codes
  fill_in req_headers resp =
      let keep_alive = lib.is_keep_alive_enabled req_headers && leb (resp.status_code / 100) 3 in
      let h1 =
        lib.set_header resp.headers (codes "Connection")
          (if keep_alive then codes "Keep-Alive" else codes "Close") in
      let h2 = lib.set_header h1 (codes "Access-Control-Allow-Origin") (codes "*") in
      record resp {
        headers =
            lib.set_header h2 (codes "Access-Control-Allow-Headers")
              (codes "Authorization, Content-Type");
      }

  unfoldable pub add_content_type : Bytes → ResponseHeaders → ResponseHeaders
  unfolding codes
  add_content_type resp_entity resp =
      if not (is_empty resp_entity) && not (lib.has_header resp.headers (codes "Content-Type"))
      then record resp {
        headers =
            lib.set_header resp.headers (codes "Content-Type") (lib.guess_mime_type resp_entity);
      }
      else resp

  unfoldable pub select_encoding : ContentEncoding → Bytes → ResponseHeaders → ContentEncoding
  unfolding codes
  select_encoding preferred resp_entity resp =
      if is_empty resp_entity
      then identity
      else if lib.has_header resp.headers (codes "Content-Encoding")
      then identity
      else elim preferred [ gzip ↦ gzip | deflate ↦ deflate | _ ↦ identity ]

  unfoldable pub compress_entity :
      ContentEncoding → ResponseHeaders → Bytes → ResponseHeaders × Bytes
  unfolding codes
  compress_entity gzip resp resp_entity = (
    record resp { headers = lib.set_header resp.headers (codes "Content-Encoding") (codes "gzip") },
    lib.compress true resp_entity,
  )
  compress_entity deflate resp resp_entity = (
    record resp {
      headers = lib.set_header resp.headers (codes "Content-Encoding") (codes "deflate");
    },
    lib.compress false resp_entity,
  )
  compress_entity identity resp resp_entity = (resp, resp_entity)
  compress_entity not_acceptable resp resp_entity = (resp, resp_entity)

  unfoldable pub or_default : ResponseHeaders × Bytes → ResponseHeaders × Bytes
  or_default (resp, resp_entity) =
      if leb 4 (resp.status_code / 100) && is_empty resp_entity
      then (let (headers, entity) = lib.make_default_response resp.status_code resp.headers in
          (record resp { headers = headers }, entity))
      else (resp, resp_entity)

  unfoldable pub complete :
      ContentEncoding → OptionMap → ResponseHeaders → Bytes → ResponseHeaders × Bytes
  unfolding fill_in add_content_type select_encoding compress_entity or_default
  complete preferred req_headers resp resp_entity =
      let typed = add_content_type resp_entity (fill_in req_headers resp) in
      or_default (compress_entity (select_encoding preferred resp_entity typed) typed resp_entity)
