-- ===== src/Tests/Certifying.antt =====
-- The certificate generator with a directory that lists the names that were written.
use ha.Base.{String, ◌≡◌, refl, Bool, true, List, [], ◌∷◌, All, ==_iff, ◌==◌}
use ha.Exec.{ok}
use ha.Pki.{Tools, has_separator, main}
use ha.Pki.Confined.{IsPlain, Inside, main-Kept}

abbrev listing : Tools (List String) Bool Bool
listing = record {
  parse_ip = λ s. s == "10.0.0.1";
  join = λ dir name. name;
  mkdir_all = λ dir w. (ok tt, w);
  write_file = λ name text mode w. (ok tt, name ∷ w);
  generate_ca_key = λ w. (true, w);
  generate_key = λ w. (ok true, w);
  make_ca = λ key w. (ok ("certificate", true), w);
  sign = λ template ca key ca_key w. (ok "certificate", w);
  key_text = λ key. ok "key";
}

address-IsPlain : (s : String) → s ≡ "10.0.0.1" → IsPlain s
unfolding has_separator
address-IsPlain s e = rw e refl

listing-Inside : Inside listing "pki" (All IsPlain)
listing-Inside = record {
  mkdir_all = λ w h. h;
  generate_ca_key = λ w h. h;
  generate_key = λ w h. h;
  make_ca = λ key w h. h;
  sign = λ template ca key ca_key w h. h;
  write = λ name text mode w plain h. (plain, h);
  address = λ s h. address-IsPlain s ((==_iff s "10.0.0.1").0 h);
}

main-Kept_example : All IsPlain (main listing "pki" "10.0.0.1, db-2" "controller-1" []).1
main-Kept_example =
    main-Kept listing "pki" (All IsPlain) listing-Inside "10.0.0.1, db-2" "controller-1" [] tt
