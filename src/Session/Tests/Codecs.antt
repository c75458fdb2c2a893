-- ===== src/Session/Tests/Codecs.antt =====
-- A text form of dates and one of the sign-in's record, written in unary.
use Prim.Native.Char.{Char, code}
use kube_memos_eks.Session.Token.{DateText}
use kube_memos_eks.Session.OAuth.{OAuthState, Json}
use kube_memos_eks.Base.{
  ◌==◌, if◌then◌else◌, Bool-cases, truthy, length, Text, ℕ, zero, suc, String, ◌≡◌, refl, ap, ◌∙◌,
  ◌≢◌, inl, inr, true, not, Option, none, some, [], ◌∷◌, eq_iff, str_eq,
}

-- A date is written in unary, behind one character.
abbrev write_unary : ℕ → String → String
write_unary zero r = String.◌∷◌ "b" r
write_unary (suc n) r = String.◌∷◌ "a" (write_unary n r)

abbrev read_unary : String → ℕ × String
read_unary String.[] = (0, String.[])
read_unary (String.◌∷◌ c s) =
    if code c == 97 then (suc (read_unary s).0, (read_unary s).1) else (0, s)

pub read_unary-write_unary : (n : ℕ) (r : String) → read_unary (write_unary n r) ≡ (n, r)
read_unary-write_unary zero r = refl
read_unary-write_unary (suc n) r = ap (λ p. (suc p.0, p.1)) (read_unary-write_unary n r)

truthy_cons : (c : Char) (s : String) → truthy (String.◌∷◌ c s) ≡ true
truthy_cons c s = elim (Bool-cases (str_eq (String.◌∷◌ c s) "")) [
  | inl e ↦ absurd (differ ((eq_iff (String.◌∷◌ c s) "").0 e))
  | inr e ↦ ap not e
]
  where
    differ : String.◌∷◌ c s ≢ ""
    differ e = cc

pub truthy-write_unary : (n : ℕ) (r : String) → truthy (write_unary n r) ≡ true
truthy-write_unary zero r = truthy_cons "b" r
truthy-write_unary (suc n) r = truthy_cons "a" (write_unary n r)

abbrev pub dates : DateText
dates = record {
  to_iso = λ t. write_unary t "";
  parse_date = λ s. some (read_unary s).0;
  parse_date-to_iso = λ t. ap (λ p. some p.0) (read_unary-write_unary t "");
  to_iso-truthy = λ t. truthy-write_unary t "";
}

abbrev write_all : Text → String → String
write_all [] r = r
write_all (c ∷ s) r = write_unary c (write_all s r)

abbrev read_all : ℕ → String → Text × String
read_all zero s = ([], s)
read_all (suc n) s = let rest = read_all n (read_unary s).1 in ((read_unary s).0 ∷ rest.0, rest.1)

read_all-write_all : (s : Text) (r : String) → read_all (length s) (write_all s r) ≡ (s, r)
read_all-write_all [] r = refl
read_all-write_all (c ∷ s) r =
    ap (λ p. (p.0 ∷ (read_all (length s) p.1).0, (read_all (length s) p.1).1))
      (read_unary-write_unary c (write_all s r))
    ∙ ap (λ p. (c ∷ p.0, p.1)) (read_all-write_all s r)

abbrev write_text : Text → String → String
write_text s r = write_unary (length s) (write_all s r)

abbrev read_text : String → Text × String
read_text s = read_all (read_unary s).0 (read_unary s).1

read_text-write_text : (s : Text) (r : String) → read_text (write_text s r) ≡ (s, r)
read_text-write_text s r =
    ap (λ p. read_all p.0 p.1) (read_unary-write_unary (length s) (write_all s r))
    ∙ read_all-write_all s r

abbrev write_url : Option String → String
write_url none = ""
write_url (some s) = String.◌∷◌ "a" s

abbrev read_url : String → Option String
read_url String.[] = none
read_url (String.◌∷◌ c s) = some s

read_url-write_url : (o : Option String) → read_url (write_url o) ≡ o
read_url-write_url none = refl
read_url-write_url (some s) = refl

abbrev write_verifier : Option Text → String → String
write_verifier none r = write_unary 0 r
write_verifier (some s) r = write_unary 1 (write_text s r)

abbrev read_verifier_at : ℕ → String → Option Text × String
read_verifier_at zero s = (none, s)
read_verifier_at (suc n) s = (some (read_text s).0, (read_text s).1)

abbrev read_verifier : String → Option Text × String
read_verifier s = read_verifier_at (read_unary s).0 (read_unary s).1

read_verifier-write_verifier :
    (o : Option Text) (r : String) → read_verifier (write_verifier o r) ≡ (o, r)
read_verifier-write_verifier none r = refl
read_verifier-write_verifier (some s) r = ap (λ p. (some p.0, p.1)) (read_text-write_text s r)

abbrev write_state : OAuthState → String
write_state s = write_text s.state (
    write_unary s.identity_provider_id
      (write_unary s.timestamp (write_verifier s.code_verifier (write_url s.return_url))))

abbrev read_url_part : Text → ℕ → ℕ → Option Text × String → OAuthState
read_url_part t i n p = record {
  state = t;
  identity_provider_id = i;
  timestamp = n;
  return_url = read_url p.1;
  code_verifier = p.0;
}

abbrev read_stamp : Text → ℕ → ℕ × String → OAuthState
read_stamp t i p = read_url_part t i p.0 (read_verifier p.1)

abbrev read_provider : Text → ℕ × String → OAuthState
read_provider t p = read_stamp t p.0 (read_unary p.1)

abbrev read_state : Text × String → OAuthState
read_state p = read_provider p.0 (read_unary p.1)

pub read_state-write_state : (s : OAuthState) → read_state (read_text (write_state s)) ≡ s
read_state-write_state s =
    ap read_state (
      read_text-write_text s.state (
        write_unary s.identity_provider_id
          (write_unary s.timestamp (write_verifier s.code_verifier (write_url s.return_url)))))
    ∙ ap (read_provider s.state) (
        read_unary-write_unary s.identity_provider_id
          (write_unary s.timestamp (write_verifier s.code_verifier (write_url s.return_url))))
    ∙ ap (read_stamp s.state s.identity_provider_id) (
        read_unary-write_unary s.timestamp
          (write_verifier s.code_verifier (write_url s.return_url)))
    ∙ ap (read_url_part s.state s.identity_provider_id s.timestamp)
        (read_verifier-write_verifier s.code_verifier (write_url s.return_url))
    ∙ ap
        (λ u. record {
          state = s.state;
          identity_provider_id = s.identity_provider_id;
          timestamp = s.timestamp;
          return_url = u;
          code_verifier = s.code_verifier;
        })
        (read_url-write_url s.return_url)

abbrev pub json : Json
json = record {
  stringify = write_state;
  parse = λ s. some (read_state (read_text s));
  parse-stringify = λ s. ap some (read_state-write_state s);
  stringify-truthy = λ s. truthy-write_unary (length s.state) (
      write_all s.state (
        write_unary s.identity_provider_id
          (write_unary s.timestamp (write_verifier s.code_verifier (write_url s.return_url)))));
}
