-- ===== src/Miracast/Rtsp/Negotiate/Transcript.antt =====
-- What a negotiation that succeeds has sent and heard.
use openplay.Miracast.Rtsp.Negotiate.Steps.{
  Moves-start, next_then, send_then, response_then, request_then, require_then, port_then,
  pure_then, ok_inj, Heard,
}
use openplay.Prelude.Strings.{or_else}
use openplay.Miracast.WfdParams.{WfdVideoFormats, negotiate_resolution, default_formats}
use openplay.Prelude.{refl}
use openplay.Prelude.{
  some, ok, true, [], List, Text, ℕ, ◌≡◌, ◌++◌, ◌+◌, ◌%◌, ◌∷◌, ◌^◌, ◌∙◌, subst, ap, text_eq, codes,
  sym, ◌==◌,
}
use openplay.Miracast.Rtsp.Connection.{RtspConnection}
use openplay.Miracast.Rtsp.Message.{
  parse_transport_port, parse_sink_video_formats, parse_response, parse_request,
}
use openplay.Miracast.Rtsp.Negotiate.{
  negotiate, WfdNegotiationResult, options_msg, options_response_msg, get_parameter_msg,
  set_parameter_msg, mode_bit, trigger_setup_msg, setup_response_msg, ok_msg,
}

abbrev pub following : ℕ → ℕ
following n = (n + 1) % 2 ^ 32

-- The answers and requests of the sink, as they are read.
pub record Sink (heard : List Text) : Type 0 where
  pub m1 : Text
  pub m2 : Text
  pub m3 : Text
  pub m4 : Text
  pub m5 : Text
  pub m6 : Text
  pub m7 : Text
  pub in_order : heard ≡ m1 ∷ m2 ∷ m3 ∷ m4 ∷ m5 ∷ m6 ∷ m7 ∷ []

abbrev IsOk : Text → Type 0
IsOk raw = (parse_response raw).code == 200 ≡ true

abbrev Asks : Text → Text → Type 0
Asks method raw = text_eq (parse_request raw).method method ≡ true

-- The formats that the answer to M3 names, or else the default ones.
abbrev pub formats_of : (m3 : Text) → WfdVideoFormats
formats_of m3 = or_else (parse_sink_video_formats (parse_response m3).body) default_formats

-- What a negotiation that succeeds has sent, after the counter stood at `n`, by what it has heard.
pub record IsTranscript (source : WfdVideoFormats) (n : ℕ) (heard sent : List Text)
    (r : WfdNegotiationResult) : Type 0 where
  pub sink : Sink heard
  pub answers : IsOk sink.m1 × IsOk sink.m3 × IsOk sink.m4 × IsOk sink.m5
  pub requests :
      Asks (codes "OPTIONS") sink.m2 × Asks (codes "SETUP") sink.m6 × Asks (codes "PLAY") sink.m7
  pub mode : (r.width, r.height, r.fps) ≡ negotiate_resolution source (formats_of sink.m3)
  pub port : parse_transport_port (parse_request sink.m6).headers ≡ some r.rtp_port
  pub messages :
      sent
      ≡ options_msg (following n)
        ∷ options_response_msg (parse_request sink.m2).cseq
        ∷ get_parameter_msg (following (following n))
        ∷ set_parameter_msg (following (following (following n))) (record source {
          cea_resolutions = mode_bit (negotiate_resolution source (formats_of sink.m3));
        })
        ∷ trigger_setup_msg (following (following (following (following n))))
        ∷ setup_response_msg (parse_request sink.m6).cseq r.rtp_port
        ∷ ok_msg (parse_request sink.m7).cseq
        ∷ []

-- A negotiation that succeeds has read seven messages of the sink, one after the other, and sent
-- seven: the four requests M1, M3, M4 and M5 with consecutive numbers, which the first, third, fourth
-- and fifth message answer with 200, and its answers to the OPTIONS, SETUP and PLAY of the sink, the
-- second, sixth and seventh. The mode it returns, and asks for in M4, is the one negotiated with the
-- formats of the sink's answer to M3, and the port is the one that the sink's SETUP names.
pub negotiate-IsTranscript :
    (sink_addr : Text) (source : WfdVideoFormats) (c : RtspConnection) {c' : RtspConnection}
    {r : WfdNegotiationResult}
    → negotiate sink_addr source c ≡ (c', ok r)
    → (heard : List Text) × (sent : List Text) × Heard c.buf c.arrivals heard c'.buf c'.arrivals
      × (c'.sent ≡ c.sent ++ sent)
      × IsTranscript source c.cseq heard sent r
unfolding negotiate
negotiate-IsTranscript sink_addr source c {c'} {r} h0 = next_then _ (Moves-start c) h0 λ c1 m1 h1.
    send_then _ _ _ m1 h1 λ c2 m2 h2. response_then _ _ m2 h2 λ c3 r1 m3 h3.
      require_then _ _ _ m3 h3 λ c4 m4 ok1 h4. request_then _ _ m4 h4 λ c5 q2 m5 h5.
        require_then _ _ _ m5 h5 λ c6 m6 is_options h6. send_then _ _ _ m6 h6 λ c7 m7 h7.
          next_then _ m7 h7 λ c8 m8 h8. send_then _ _ _ m8 h8 λ c9 m9 h9.
            response_then _ _ m9 h9 λ c10 r3 m10 h10. require_then _ _ _ m10 h10 λ c11 m11 ok3 h11.
              next_then _ m11 (pure_then _ _ c11 h11) λ c12 m12 h12.
                send_then _ _ _ m12 h12 λ c13 m13 h13. response_then _ _ m13 h13 λ c14 r4 m14 h14.
                  require_then _ _ _ m14 h14 λ c15 m15 ok4 h15. next_then _ m15 h15 λ c16 m16 h16.
                    send_then _ _ _ m16 h16 λ c17 m17 h17.
                      response_then _ _ m17 h17 λ c18 r5 m18 h18.
                        require_then _ _ _ m18 h18 λ c19 m19 ok5 h19.
                          request_then _ _ m19 h19 λ c20 q6 m20 h20.
                            require_then _ _ _ m20 h20 λ c21 m21 is_setup h21.
                              port_then _ _ m21 h21 λ c22 port m22 usable h22.
                                send_then _ _ _ m22 h22 λ c23 m23 h23.
                                  request_then _ _ m23 h23 λ c24 q7 m24 h24.
                                    require_then _ _ _ m24 h24 λ c25 m25 is_play h25.
                                      send_then _ _ _ m25 h25 λ c26 m26 h26. (
                                        _,
                                        _,
                                        subst
                                            (λ (d : RtspConnection).
                                              Heard c.buf c.arrivals
                                                (r1 ∷ q2 ∷ r3 ∷ r4 ∷ r5 ∷ q6 ∷ q7 ∷ []) d.buf
                                                d.arrivals)
                                            (ap (λ x. x.0) h26) m26.read,
                                        sym (ap (λ x. x.0.sent) h26) ∙ m26.sent,
                                        subst (IsTranscript source c.cseq _ _)
                                            (ok_inj (ap (λ x. x.1) h26) refl refl)
                                            (record {
                                              sink = record {
                                                m1 = r1;
                                                m2 = q2;
                                                m3 = r3;
                                                m4 = r4;
                                                m5 = r5;
                                                m6 = q6;
                                                m7 = q7;
                                                in_order = refl;
                                              };
                                              answers = (ok1, ok3, ok4, ok5);
                                              requests = (is_options, is_setup, is_play);
                                              mode = refl;
                                              port = usable;
                                              messages = refl;
                                            }),
                                      )
