-- ===== src/Tests/MessageTests.antt =====
-- Messages that are written and read back.
use http2rtsp.Prelude.{◌≡◌, refl, true, some, arith}
use http2rtsp.Prelude.Int.{pos}
use http2rtsp.Text.{Bytes, codes, is_digit, not_cr, strstr, starts_with}
use http2rtsp.Text.Words.{in_word, AllPass-all_pass}
use http2rtsp.Rtsp.{RtspMsg, zero_msg, setup, parse_rtsp, write_rtsp}
use http2rtsp.Rtsp.Fields.{IsReadable}
use http2rtsp.Rtsp.Readback.{understood, parse_rtsp-write_rtsp}
use http2rtsp.Sip
use http2rtsp.Sip.{SipMsg, SipClient, create_ok, write_sip, parsesipmsg}
use http2rtsp.Sip.Heard
use http2rtsp.Sip.Readback.{answered, create_ok-parsesipmsg}

-- The answer to a SETUP, with the ports of both sides.
abbrev setup_answer : RtspMsg
setup_answer = record zero_msg {
  type = setup;
  fields = 0x27;
  cseq = pos 3;
  session = pos 123456;
  transport = codes "RTP/AVP;unicast;client_port=5000-5001;server_port=40404-40405";
  clirtpport = codes "5000";
  clirtcpport = codes "5001";
}

setup_answer-IsReadable : IsReadable setup_answer
unfolding strstr starts_with
setup_answer-IsReadable = record {
  cseq_is = λ e. omega arith;
  date_is = λ e. absurd (cc (e));
  session_is = λ e. omega arith;
  conttype_is = λ e. absurd (cc (e));
  contlen_is = λ e. absurd (cc (e));
  transport_is = λ e. (AllPass-all_pass in_word setup_answer.transport refl, omega arith);
  rtp_is = λ e. (AllPass-all_pass is_digit (codes "5000") refl, omega arith, omega arith);
  rtcp_is = λ e. (AllPass-all_pass is_digit (codes "5001") refl, omega arith, omega arith);
  ports_are = λ e. (codes ";server_port=40404-40405", refl, refl);
  range_is = λ e. absurd (cc (e));
}

parse_rtsp-write_rtsp_example :
    parse_rtsp (write_rtsp setup_answer) ≡ some (pos 1, understood setup_answer)
parse_rtsp-write_rtsp_example = parse_rtsp-write_rtsp setup_answer setup_answer-IsReadable

abbrev caller : SipClient
caller = record {
  callid = codes "17";
  sockfd = 8;
  ackrecvd = true;
  from = codes "<sip:a>";
  to = codes "<sip:b>";
  cliaddr = 1;
}

abbrev invitation : SipMsg
invitation = record Sip.zero_msg {
  fields = 0x6f;
  via = codes "SIP/2.0/UDP a";
  from = codes "<sip:a>";
  to = codes "<sip:b>";
  callid = codes "17";
  cseq = codes "1 INVITE";
  contenttype = codes "application/sdp";
}

invitation-IsReadable : Heard.IsReadable invitation
invitation-IsReadable = record {
  via_is = ((refl, AllPass-all_pass not_cr invitation.via refl), omega arith);
  from_is = ((refl, AllPass-all_pass not_cr invitation.from refl), omega arith);
  to_is = ((refl, AllPass-all_pass not_cr invitation.to refl), omega arith);
  callid_is = ((refl, AllPass-all_pass not_cr invitation.callid refl), omega arith);
  cseq_is = ((refl, AllPass-all_pass not_cr invitation.cseq refl), omega arith);
}

create_ok-parsesipmsg_example :
    (text : Bytes) × (write_sip (create_ok invitation) ≡ some text)
    × (parsesipmsg text ≡ some (pos 0, answered invitation))
create_ok-parsesipmsg_example =
    create_ok-parsesipmsg invitation refl invitation-IsReadable
      (AllPass-all_pass in_word invitation.contenttype refl) (omega arith)
