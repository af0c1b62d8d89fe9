-- ===== src/Specki/Json.antt =====
-- `DecodeJSONFile` and `EncodeJSONFile` of pkg/specki/specki.go. What encoding/json makes of a text
-- or a value, its errors included, is a parameter.
use lxcri.Base.{
  ℕ, String, Option, some, ◌<>◌, ◌≡◌, refl, sym, ◌∙◌, ◌++◌, ◌∷◌, [], List, none, Error, wrapped,
  Result, ok, err,
}
use lxcri.Base.Calls.{Does, perform-Does, wrapped-Does, then-Does}
use lxcri.Base.Host.{
  Host, M, History, Call, open_read, create_new, write_text, close_file, chmod, perform, throw,
  return, record_call, attempt, with_error, query_result, >>=-eq-ok, ◌>>=◌, ◌>>◌,
}

module _ (h : Host) where
  module _ {A : Type 0} where
    -- Behind the decoder the file is closed, and an error of that counts only without another.
    unfoldable pub close_decoded : String → Result A → M A
    close_decoded path (ok a) = do
      with_error (wrapped ("failed to close " <> path)) (perform h (close_file path))
      return a
    close_decoded path (err e) = do
      record_call (close_file path)
      throw (wrapped ("failed to decode JSON from " <> path) e)

    -- The decoder reads the file while it is decoded.
    abbrev pub decoded : (String → Result A) → Result String → Result A
    decoded decode (ok text) = decode text
    decoded decode (err e) = err e

    -- `DecodeJSONFile`
    unfoldable pub decode_json_file : (String → Result A) → String → M A
    decode_json_file decode path = do
      perform h (open_read path)
      value ← query_result (λ w. ok (decoded decode (h.read_file w path)))
      close_decoded path value

  -- The encoding is written, unless the value has none.
  abbrev pub put_text : String → Result String → M (Unit {0})
  put_text path (ok text) = perform h (write_text path text)
  put_text path (err e) = throw e

  abbrev pub close_failed : String → Result (Unit {0}) → M (Unit {0})
  close_failed path (ok u) = return tt
  close_failed path (err e) = do
    record_call (close_file path)
    throw (wrapped ("failed to encode JSON to " <> path) e)

  unfoldable pub write_encoded : String → Result String → M (Unit {0})
  write_encoded path text = do outcome ← attempt (put_text path text); close_failed path outcome

  -- `EncodeJSONFile` with the flags O_EXCL and O_CREATE, which every caller passes
  unfoldable pub encode_json_file : String → Result String → ℕ → M (Unit {0})
  encode_json_file path text perm = do
    perform h (create_new path perm)
    write_encoded path text
    with_error (wrapped ("failed to close " <> path)) (perform h (close_file path))
    with_error (wrapped ("failed to 'chmod " <> path <> "'")) (perform h (chmod path perm))

  -- The calls of `EncodeJSONFile` that succeeds
  abbrev pub file_calls : String → String → ℕ → List Call
  file_calls path text perm =
      create_new path perm ∷ write_text path text ∷ close_file path ∷ chmod path perm ∷ []

  write_encoded-ok :
      (path : String) (text : Result String) (w v : History)
      → write_encoded path text w ≡ (ok tt, v)
      → (t : String) × (text ≡ ok t) × (perform h (write_text path t) w ≡ (ok tt, v))
  unfolding write_encoded
  write_encoded-ok path (err e) w v q = absurd cc
  write_encoded-ok path (ok t) w v q = (t, refl, go (h.reply w (write_text path t)) refl)
    where
      go :
          (o : Option Error)
          → h.reply w (write_text path t) ≡ o
          → perform h (write_text path t) w ≡ (ok tt, v)
      go none taken =
          let done : write_encoded path (ok t) w ≡ (ok tt, w ++ (write_text path t ∷ [])) =
            rw (taken, write_encoded) refl in
          rw taken (sym done ∙ q)
      go (some y) bad =
          let stuck : write_encoded path (ok t) w ≡ (
            err (wrapped ("failed to encode JSON to " <> path) y),
            (w ++ (write_text path t ∷ [])) ++ (close_file path ∷ []),
          ) =
            rw (bad, write_encoded) refl in
          absurd cc

  -- A file that was written has been created anew, written, closed and given its permissions.
  pub encode_json_file-ok :
      (path : String) (text : Result String) (perm : ℕ) (w w' : History)
      → encode_json_file path text perm w ≡ (ok tt, w')
      → (t : String) × (text ≡ ok t) × Does h w (file_calls path t perm) w'
  unfolding encode_json_file
  encode_json_file-ok path text perm w w' e =
      let mode : M (Unit {0}) =
        with_error (wrapped ("failed to 'chmod " <> path <> "'")) (perform h (chmod path perm)) in
      let shut : M (Unit {0}) =
        with_error (wrapped ("failed to close " <> path)) (perform h (close_file path)) in
      let (_, w₁, created, e₁) =
        >>=-eq-ok (perform h (create_new path perm))
          (λ _. write_encoded path text >> (shut >> mode)) w e in
      let (_, w₂, put_down, e₂) = >>=-eq-ok (write_encoded path text) (λ _. shut >> mode) w₁ e₁ in
      let (_, w₃, closed, e₃) = >>=-eq-ok shut (λ _. mode) w₂ e₂ in
      let (t, has_text, written) = write_encoded-ok path text w₁ w₂ put_down in
      (
        t,
        has_text,
        then-Does h w w₁ w' (create_new path perm ∷ [])
            (write_text path t ∷ close_file path ∷ chmod path perm ∷ [])
            (perform-Does h (create_new path perm) w w₁ created)
            (then-Does h w₁ w₂ w' (write_text path t ∷ []) (close_file path ∷ chmod path perm ∷ [])
              (perform-Does h (write_text path t) w₁ w₂ written)
              (then-Does h w₂ w₃ w' (close_file path ∷ []) (chmod path perm ∷ [])
                (wrapped-Does h (wrapped ("failed to close " <> path)) (close_file path) w₂ w₃
                  closed)
                (wrapped-Does h (wrapped ("failed to 'chmod " <> path <> "'")) (chmod path perm) w₃
                  w' e₃))),
      )
