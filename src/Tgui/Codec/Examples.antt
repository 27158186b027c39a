-- ===== src/Tgui/Codec/Examples.antt =====
-- The codec's theorems at a concrete call.
use statixagent.Prelude.{◌≡◌, ◌↔◌, refl, true, [], ◌∷◌}
use statixagent.Prelude.Text.{Str, codes}
use statixagent.Tgui.Codec.{Call, CodecError, malformed, Result, ok, err, encode, decode}
use statixagent.Tgui.Codec.RoundTrip.{decode-encode, encode-decode}

abbrev restart : Call
restart = record {
  act = codes "svc";
  args = codes "nginx.service" ∷ codes "r" ∷ [];
  from = codes "ls";
}

abbrev restart_text : Str
restart_text = codes "~1svc|nginx.service|r^ls"

-- An argument is not empty, and a Back target that is cut off is refused.
decode_dangling : decode (codes "~1svc|nginx.service|^") ≡ err malformed
unfolding decode statixagent.Prelude.Text.cut_prefix statixagent.Prelude.Text.cut
    statixagent.Tgui.Codec.valid_id
decode_dangling = refl

encode-restart : encode restart ≡ ok restart_text
unfolding encode statixagent.Tgui.Codec.valid_id statixagent.Tgui.Codec.valid_arg
encode-restart = refl

decode-restart : decode restart_text ≡ ok restart
unfolding decode statixagent.Prelude.Text.cut_prefix statixagent.Prelude.Text.cut
    statixagent.Tgui.Codec.valid_id statixagent.Prelude.Text.split statixagent.Tgui.Codec.valid_arg
decode-restart = refl

decode-encode_example : decode restart_text ≡ ok restart
decode-encode_example = decode-encode restart restart_text encode-restart

encode-decode_example : encode restart ≡ ok restart_text
encode-decode_example = encode-decode restart_text restart decode-restart
