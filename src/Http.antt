-- ===== src/Http.antt =====
-- The parts of http.Request and http.Response that the program reads, and the time formats of the
-- package http, which the model takes as a parameter.
use cifera.Base.{ℕ, List, Option, Text, ℤ}
use cifera.Header.{Header}

pub record Request : Type 0 where
  pub method : Text
  pub header : Header

pub record Response : Type 0 where
  pub status_code : ℕ
  pub header : Header
  pub body : List ℕ
  pub content_length : ℤ

-- http.ParseTime and Format(http.TimeFormat). A time counts the nanoseconds since the zero time.
pub record TimeFormat : Type 0 where
  pub parse : Text → Option ℕ
  pub format : ℕ → Text
