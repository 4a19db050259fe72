-- ===== src/Probes/Http.antt =====
-- Requests and responses of package net/http, as far as the probes make and read them. Decoding
-- JSON is an input.
use vpub_exporter.Prelude.{ℕ, Option, none, some, List, take, length, ltb, if◌then◌else◌, ℤ}
use vpub_exporter.Text.{Bytes}
use vpub_exporter.Errors.{Error, Result, err}

-- `body` is what can be read of the body, and `body_error` the error that ends it before its end.
pub record Response : Type 0 where
  pub status_code : ℕ
  pub body : Bytes
  pub body_error : Option Error
  -- Header.Get("Last-Modified")
  pub last_modified : Bytes

abbrev pub status_ok : ℕ
status_ok = 200

abbrev pub status_unauthorized : ℕ
status_unauthorized = 401

-- The bytes of io.ReadAll(io.LimitReader(resp.Body, n)).
abbrev pub read_limited : ℕ → Response → Bytes
read_limited n r = take n r.body

-- The error of io.ReadAll(io.LimitReader(resp.Body, n)): what stands behind the limit is not read.
abbrev pub read_error : ℕ → Response → Option Error
read_error n r = if ltb (length r.body) n then r.body_error else none

-- The context and its time limit are left out.
pub record Request : Type 0 where
  pub method : Bytes
  pub url : Bytes
  pub headers : List (Bytes × Bytes)
  pub body : Bytes

-- http.NewRequestWithContext, which fails for a wrong method or URL, and Client.Do with the time it
-- took in nanoseconds. Neither has a law.
pub record HttpClient : Type 0 where
  pub new_request_error : Request → Option Error
  pub send : Request → Result Response
  pub elapsed : Request → ℤ

-- The answer to a request, by its making and its sending.
abbrev pub answer : HttpClient → Request → Result Response
answer client q = elim (client.new_request_error q) [ some e ↦ err e | none ↦ client.send q ]
