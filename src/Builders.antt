-- ===== src/Builders.antt =====
-- tokio-netem/src/io.rs: the extension traits `NetEmReadExt` and `NetEmWriteExt`, which wrap an
-- object in an adapter.
use trixter.Prelude.{ℕ}
use trixter.Tokio.{AsyncWrite, Timer}
use trixter.Throttler.{DynamicRate, usize_rate, dynamic_rate}
use trixter.Throttler.Reader.{ThrottledReader}
use trixter.Throttler.Reader as RateReader
use trixter.Throttler.Writer.{ThrottledWriter}
use trixter.Throttler.Writer as RateWriter
use trixter.Delayer.{DynamicDuration}
use trixter.Delayer.Reader.{DelayedReader}
use trixter.Delayer.Reader as DelayReader
use trixter.Delayer.Writer.{DelayedWriter}
use trixter.Delayer.Writer as DelayWriter
use trixter.Slicer.{SlicedWriter, DynamicSize, wrap}
use trixter.Injector.Reader.{ReadInjector}
use trixter.Injector.Reader as ReadInjection
use trixter.Injector.Writer.{WriteInjector}
use trixter.Injector.Writer as WriteInjection

module _ {T Rx : Type 0} where
  abbrev pub inject_read : T → Rx → ReadInjector T Rx
  inject_read this inject_rx = ReadInjection.new this inject_rx

  abbrev pub inject_write : T → Rx → WriteInjector T Rx
  inject_write this inject_rx = WriteInjection.new this inject_rx

module _ {T : Type 0} where
  abbrev pub slice_writes : T → ℕ → SlicedWriter T ℕ
  slice_writes this size = wrap this size

  abbrev pub slice_writes_dyn : T → DynamicSize → SlicedWriter T DynamicSize
  slice_writes_dyn this size = wrap this size

module _ {Cx Sleep T : Type 0} ⦃tm : Timer Cx Sleep⦄ where
  abbrev pub throttle_reads : T → ℕ → Cx → ThrottledReader T ℕ Sleep × Cx
  throttle_reads this rate cx = RateReader.new_reader this rate cx

  abbrev pub throttle_reads_dyn : T → DynamicRate → Cx → ThrottledReader T DynamicRate Sleep × Cx
  throttle_reads_dyn this rate cx = RateReader.new_reader this rate cx

  abbrev pub delay_reads : T → ℕ → Cx → DelayedReader T ℕ Sleep
  delay_reads this delay cx = DelayReader.new_reader this delay cx

  abbrev pub delay_reads_dyn : T → DynamicDuration → Cx → DelayedReader T DynamicDuration Sleep
  delay_reads_dyn this delay cx = DelayReader.new_reader this delay cx

  abbrev pub delay_writes : T → ℕ → Cx → DelayedWriter T ℕ Sleep
  delay_writes this delay cx = DelayWriter.new_writer this delay cx

  abbrev pub delay_writes_dyn : T → DynamicDuration → Cx → DelayedWriter T DynamicDuration Sleep
  delay_writes_dyn this delay cx = DelayWriter.new_writer this delay cx

  module _ ⦃w : AsyncWrite Cx T⦄ where
    abbrev pub throttle_writes : T → ℕ → Cx → ThrottledWriter T ℕ Sleep × Cx
    throttle_writes this rate cx = RateWriter.new_writer this rate cx

    abbrev pub throttle_writes_dyn : T → DynamicRate → Cx → ThrottledWriter T DynamicRate Sleep × Cx
    throttle_writes_dyn this rate cx = RateWriter.new_writer this rate cx
