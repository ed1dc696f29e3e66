-- ===== src/Discovery/Probe.antt =====
-- Asking one device: the functions of src/net/discovery.rs that use the RTSP and HTTP clients.
use arrow_client.Base.{
  ℕ, Bool, true, false, ◌&&◌, ◌||◌, not, Option, none, some, List, [], ◌∷◌, ◌==◌, if◌then◌else◌,
}
use arrow_client.Base.Parsing.{Parsing, ok, err, panic, out_of_fuel, ◌>>=◌}
use arrow_client.Base.Text.{codes, same_text, starts_with}
use arrow_client.Http.Client as Http
use arrow_client.Http.Fields as Fields
use arrow_client.Http.Header as HttpHeader
use arrow_client.Net.Addr.{MacAddr, SocketAddr}
use arrow_client.Protocol.Service.{
  Service, rtsp, locked_rtsp, unknown_rtsp, unsupported_rtsp, mjpeg, locked_mjpeg, unwrap_or,
}
use arrow_client.Rtsp.Client as Rtsp
use arrow_client.Rtsp.Header as RtspHeader
use arrow_client.Rtsp.Response as RtspResponse
use arrow_client.Rtsp.Sdp.Parser as Sdp

-- What is taken from outside: the functions and expressions of the parsers, and the connections to a
-- device, for each path that is asked for: `none` is a client that cannot be made. A timeout may not
-- be set.
pub record Network : Type 0 where
  pub fields : Fields.Outside
  pub sdp : Sdp.Outside
  pub rtsp_status : List ℕ → Option RtspHeader.StatusLine
  pub http_status : List ℕ → Option HttpHeader.StatusLine
  pub usize_from_str : List ℕ → Option ℕ
  pub to_uppercase : List ℕ → List ℕ
  pub rtsp_client : SocketAddr → List ℕ → Option Rtsp.Client
  pub http_client : SocketAddr → List ℕ → Option Http.Client
  pub sets_timeout : SocketAddr → Bool

-- `Result::ok`: a panic stays one.
abbrev pub ok_value : {A : Type 0} → Parsing A → Parsing (Option A)
ok_value (ok a) = ok (some a)
ok_value err = ok none
ok_value panic = panic
ok_value out_of_fuel = out_of_fuel

abbrev is_ok : {A : Type 0} → Option A → Bool
is_ok none = false
is_ok (some a) = true

-- `DescribeStatus`
pub data DescribeStatus : Type 0 where
  ok_status locked unsupported not_found error : DescribeStatus

abbrev is_video : Sdp.MediaType → Bool
is_video Sdp.video = true
is_video _ = false

-- `HashSet::contains`
unfoldable pub has_text : List ℕ → List (List ℕ) → Bool
has_text t [] = false
has_text t (s ∷ ss) = same_text s t || has_text t ss

module _ (net : Network) where
  unfoldable pub is_rtsp_service : SocketAddr → Parsing Bool
  unfolding Rtsp.options
  is_rtsp_service addr = elim (net.rtsp_client addr (codes "/")) [
    | none ↦ ok false
    | some client ↦
        if net.sets_timeout addr
        then (ok_value (Rtsp.options net.fields net.rtsp_status net.usize_from_str client)
            >>= λ response. ok (is_ok response))
        else err
  ]

  -- The encodings of the attributes of a video stream
  unfoldable pub codecs_of : List Sdp.Attribute → List (List ℕ) → Parsing (List (List ℕ))
  unfolding Sdp.parse_map
  codecs_of [] vcodecs = ok vcodecs
  codecs_of (attr ∷ attrs) vcodecs = ok_value (Sdp.parse_map net.sdp attr) >>= λ rtpmap.
      codecs_of attrs
        (elim rtpmap [ none ↦ vcodecs | some m ↦ net.to_uppercase m.encoding ∷ vcodecs ])

  unfoldable pub video_codecs : List Sdp.MediaDescription → List (List ℕ) → Parsing (List (List ℕ))
  unfolding codecs_of
  video_codecs [] vcodecs = ok vcodecs
  video_codecs (md ∷ mds) vcodecs =
      (if is_video md.media_type then codecs_of md.attributes vcodecs else ok vcodecs)
      >>= video_codecs mds

  abbrev is_supported_codec : List (List ℕ) → Bool
  is_supported_codec vcodecs =
      has_text (codes "H264") vcodecs
      || has_text (codes "H264-RCDO") vcodecs
      || has_text (codes "H264-SVC") vcodecs
      || has_text (codes "MP4V-ES") vcodecs
      || has_text (codes "MPEG4-GENERIC") vcodecs

  unfoldable pub is_supported_rtsp_service : List ℕ → Parsing Bool
  unfolding Sdp.parse video_codecs has_text
  is_supported_rtsp_service sdp = ok_value (Sdp.parse net.sdp sdp) >>= λ sdp. elim sdp [
    | none ↦ ok false
    | some description ↦ video_codecs description.media_descriptions [] >>= λ vcodecs.
        ok (is_supported_codec vcodecs)
  ]

  abbrev is_hipcam : Option (List ℕ) → Bool
  is_hipcam none = false
  is_hipcam (some server) =
      same_text server (codes "HiIpcam/V100R003 VodServer/1.0.0")
      || same_text server (codes "Hipcam RealServer/V1.0")

  -- The status for a response
  unfoldable pub status_of : List ℕ → RtspResponse.Response → Parsing DescribeStatus
  unfolding Fields.get_str is_supported_rtsp_service
  status_of path response =
      let header = response.header in
      Fields.get_str net.fields (codes "Server") header.headers header.header_map >>= λ server.
      (if is_hipcam server
          && (not (same_text path (codes "/11")) && not (same_text path (codes "/12")))
        then ok not_found
        else if header.code == 404
        then ok not_found
        else if header.code == 401
        then ok locked
        else if header.code == 200
        then (is_supported_rtsp_service response.body >>= λ supported.
            ok (if supported then ok_status else unsupported))
        else ok error)

  unfoldable pub get_rtsp_describe_status : SocketAddr → List ℕ → Parsing DescribeStatus
  unfolding Rtsp.describe status_of
  get_rtsp_describe_status addr path = elim (net.rtsp_client addr path) [
    | none ↦ ok error
    | some client ↦
        if net.sets_timeout addr
        then (ok_value (Rtsp.describe net.fields net.rtsp_status net.usize_from_str path client)
            >>= λ answer. elim answer [
              | none ↦ ok error
              | some (client, response) ↦ status_of path response
            ])
        else err
  ]

  unfoldable pub is_http_service : SocketAddr → Parsing Bool
  unfolding Http.get_header
  is_http_service addr = elim (net.http_client addr (codes "/")) [
    | none ↦ ok false
    | some client ↦
        if net.sets_timeout addr
        then (ok_value (Http.get_header net.fields net.http_status (codes "/") client)
            >>= λ response. ok (is_ok response))
        else err
  ]

  unfoldable pub get_http_response_header :
      SocketAddr → List ℕ → Parsing (Option HttpHeader.ResponseHeader)
  unfolding Http.get_header
  get_http_response_header addr path = elim (net.http_client addr path) [
    | none ↦ ok none
    | some client ↦
        if net.sets_timeout addr
        then ok_value (Http.get_header net.fields net.http_status path client)
        else err
  ]

  -- The loop of `find_rtsp_path`, with the service so far
  unfoldable pub rtsp_path_loop : MacAddr → SocketAddr → List (List ℕ) → Service → Parsing Service
  unfolding get_rtsp_describe_status
  rtsp_path_loop mac addr [] service = ok service
  rtsp_path_loop mac addr (path ∷ paths) service = get_rtsp_describe_status addr path >>= λ status.
      elim status [
        | ok_status ↦ ok (rtsp mac addr path)
        | locked ↦ ok (locked_rtsp mac addr)
        | unsupported ↦ rtsp_path_loop mac addr paths (unsupported_rtsp mac addr path)
        | not_found ↦ rtsp_path_loop mac addr paths service
        | error ↦ rtsp_path_loop mac addr paths service
      ]

  unfoldable pub find_rtsp_path : MacAddr → SocketAddr → List (List ℕ) → Parsing Service
  unfolding rtsp_path_loop
  find_rtsp_path mac addr paths = rtsp_path_loop mac addr paths (unknown_rtsp mac addr)

  -- The content type of a picture or of a stream of pictures
  abbrev is_mjpeg : Option (List ℕ) → Bool
  is_mjpeg content_type =
      let ctype = net.fields.to_lowercase (unwrap_or content_type []) in
      starts_with ctype (codes "image/jpeg")
      || starts_with ctype (codes "multipart/x-mixed-replace")

  unfoldable pub find_mjpeg_path : MacAddr → SocketAddr → List (List ℕ) → Parsing (Option Service)
  unfolding get_http_response_header Fields.get_str
  find_mjpeg_path mac addr [] = ok none
  find_mjpeg_path mac addr (path ∷ paths) =
      let rest = find_mjpeg_path mac addr paths in
      get_http_response_header addr path >>= λ answer. elim answer [
        | none ↦ rest
        | some header ↦
            if header.code == 200
            then (Fields.get_str net.fields (codes "content-type") header.headers header.header_map
                >>= λ ctype. if is_mjpeg ctype then ok (some (mjpeg mac addr path)) else rest)
            else if header.code == 401
            then ok (some (locked_mjpeg mac addr))
            else rest
      ]
