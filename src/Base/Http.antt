-- ===== src/Base/Http.antt =====
-- What an HTTP handler answers: a status with a JSON body, with an error's text, or with none.
use full.Base.{ℕ, String}

pub data Reply (A : Type 0) : Type 0 where
  json : ℕ → A → Reply A
  error : ℕ → String → Reply A
  no_content : ℕ → Reply A

abbrev pub status_of : {A : Type 0} → Reply A → ℕ
status_of (json status body) = status
status_of (error status text) = status
status_of (no_content status) = status
